-- ===== src/Description.antt =====
-- co/connectionDescription.cpp: the text of connection descriptions. Text is a list of character
-- codes. How the standard library prints and parses numbers is a parameter; numbers are not negative.
pub mod Fields
pub mod RoundTrip
pub mod Nodes
use collage.Prelude.{
  ℕ, zero, suc, ◌%◌, ◌<◌, ◌≡◌, Bool, true, false, ◌&&◌, Option, none, some, List, [], ◌∷◌, ◌++◌,
  leb, ◌==◌, if◌then◌else◌, length, All, ◌≢◌,
}

abbrev pub Text : Type 0
Text = List ℕ

-- SEPARATOR and CO_SEPARATOR, '#'
abbrev pub separator : ℕ
separator = 35

abbrev pub colon : ℕ
colon = 58

-- The output of numbers to a stream, and atoi or the input from a stream.
pub record Numbers : Type 0 where
  pub print : ℕ → Text
  pub parse : Text → ℕ

abbrev pub is_digit : ℕ → Bool
is_digit c = leb 48 c && leb c 57

abbrev pub starts_with_digit : Text → Bool
starts_with_digit [] = false
starts_with_digit (c ∷ t) = is_digit c

-- Numbers of an int that is not negative are printed in digits, and read back.
pub record IsNumbers (numbers : Numbers) : Type 0 where
  pub parse-print : (n : ℕ) → n < 0x80000000 → numbers.parse (numbers.print n) ≡ n
  pub plain : (n : ℕ) → All (λ c. c ≢ separator) (numbers.print n)
  pub digit : (n : ℕ) → starts_with_digit (numbers.print n) ≡ true

pub data ConnectionType : Type 0 where
  type_none tcpip sdp anon_pipe named_pipe ib rdma udt multicast rsp : ConnectionType

pub record Description : Type 0 where
  pub connection_type : ConnectionType
  pub bandwidth : ℕ
  pub port : ℕ
  pub hostname : Text
  pub interface_name : Text
  pub filename : Text

-- "default"
abbrev pub new_description : Description
new_description = record {
  connection_type = tcpip;
  bandwidth = 0;
  port = 0;
  hostname = [];
  interface_name = [];
  filename = 100 ∷ 101 ∷ 102 ∷ 97 ∷ 117 ∷ 108 ∷ 116 ∷ [];
}

-- operator << of a type: "NONE", "TCPIP", "SDP", "ANON_PIPE", "PIPE", "RDMA", "UDT", "RSP", "ERROR"
abbrev pub type_name : ConnectionType → Text
type_name type_none = 78 ∷ 79 ∷ 78 ∷ 69 ∷ []
type_name tcpip = 84 ∷ 67 ∷ 80 ∷ 73 ∷ 80 ∷ []
type_name sdp = 83 ∷ 68 ∷ 80 ∷ []
type_name anon_pipe = 65 ∷ 78 ∷ 79 ∷ 78 ∷ 95 ∷ 80 ∷ 73 ∷ 80 ∷ 69 ∷ []
type_name named_pipe = 80 ∷ 73 ∷ 80 ∷ 69 ∷ []
type_name rdma = 82 ∷ 68 ∷ 77 ∷ 65 ∷ []
type_name udt = 85 ∷ 68 ∷ 84 ∷ []
type_name rsp = 82 ∷ 83 ∷ 80 ∷ []
type_name ib = 69 ∷ 82 ∷ 82 ∷ 79 ∷ 82 ∷ []
type_name multicast = 69 ∷ 82 ∷ 82 ∷ 79 ∷ 82 ∷ []

abbrev pub same_text : Text → Text → Bool
same_text [] [] = true
same_text [] (d ∷ u) = false
same_text (c ∷ t) [] = false
same_text (c ∷ t) (d ∷ u) = (c == d) && same_text t u

-- _getConnectionType; "TCP" is 84 67 80.
unfoldable pub get_connection_type : Text → ConnectionType
get_connection_type t =
    if same_text t (type_name tcpip)
    then tcpip
    else if same_text t (84 ∷ 67 ∷ 80 ∷ [])
    then tcpip
    else if same_text t (type_name sdp)
    then sdp
    else if same_text t (type_name anon_pipe)
    then anon_pipe
    else if same_text t (type_name named_pipe)
    then named_pipe
    else if same_text t (type_name rsp)
    then rsp
    else if same_text t (type_name rdma)
    then rdma
    else if same_text t (type_name udt)
    then udt
    else type_none

-- data.substr( 0, pos ) and data.substr( pos + 1 ), where pos is that of the first c; none for npos
unfoldable pub cut : ℕ → Text → Option (Text × Text)
cut c [] = none
cut c (d ∷ t) =
    let rest = cut c t in
    if d == c then some ([], t) else elim rest [ none ↦ none | some p ↦ some (d ∷ p.0, p.1) ]

-- What fromString leaves: the description, the rest of the data and its result.
pub record Parsed : Type 0 where
  pub description : Description
  pub rest : Text
  pub success : Bool

abbrev pub failed : Description → Text → Parsed
failed d t = record { description = d; rest = t; success = false }

-- The next field, or a jump to error.
unfoldable pub with_field : Description → Text → (Text → Text → Parsed) → Parsed
with_field d t parse_rest = elim (cut separator t) [
  | none ↦ failed d t
  | some p ↦ parse_rest p.0 p.1
]

-- A field and what follows it
abbrev pub field : Text → Text → Text
field t rest = t ++ separator ∷ rest

-- The tokens between colons, each with the data behind it; the last one is its own rest.
abbrev pub tokens : Text → Text → List (Text × Text)
tokens token [] = (token, token) ∷ []
tokens token (c ∷ t) = if c == colon then (token, t) ∷ tokens [] t else tokens (token ++ c ∷ []) t

-- A token that is not a port: the type, of which a named pipe has its file where others have a host.
unfoldable pub set_type : Description → ConnectionType → Option Description
set_type d type_none = none
set_type d named_pipe =
    some (record d { connection_type = named_pipe; filename = d.hostname; hostname = [] })
set_type d t = some (record d { connection_type = t })

module _ (numbers : Numbers) where
  unfoldable pub serialize : Description → Text
  serialize d = field (type_name d.connection_type) (
      field (numbers.print d.bandwidth) (
        field d.hostname
          (field d.interface_name (field (numbers.print d.port) (field d.filename [])))))

  -- fromString on a list of fields, after its type
  unfoldable pub parse_fields : Description → Text → Parsed
  parse_fields d t = with_field d t (λ bandwidth t1.
      let d1 = record d { bandwidth = numbers.parse bandwidth } in
      with_field d1 t1 (λ hostname t2.
        let d2 = record d1 { hostname = hostname } in
        with_field d2 t2 (λ interface_name t3.
          let d3 = record d2 { interface_name = interface_name } in
          with_field d3 t3 (λ port t4.
            let d4 = record d3 { port = numbers.parse port % 0x10000 } in
            with_field d4 t4 (λ filename t5. record {
              description = record d4 { filename = filename };
              rest = t5;
              success = true;
            })))))

  unfoldable pub parse_tokens : Description → List (Text × Text) → Parsed
  parse_tokens d [] = record { description = d; rest = []; success = true }
  parse_tokens d (t ∷ ts) =
      let as_port = parse_tokens (record d { port = numbers.parse t.0 % 0x10000 }) ts in
      if starts_with_digit t.0 then as_port else elim (set_type d (get_connection_type t.0)) [
        | none ↦ failed (record d { connection_type = type_none }) t.1
        | some e ↦ parse_tokens e ts
      ]

  -- fromString on hostname[:port][:type] or filename:PIPE
  unfoldable pub parse_host : Description → Text → Parsed
  parse_host d t = elim (cut colon t) [
    | none ↦ record { description = record d { hostname = t }; rest = []; success = true }
    | some p ↦ parse_tokens (record d { hostname = p.0 }) (tokens [] p.1)
  ]

  unfoldable pub from_string : Description → Text → Parsed
  from_string d t = elim (cut separator t) [
    | none ↦ parse_host (record d { connection_type = tcpip }) t
    | some p ↦ parse_fields (record d { connection_type = get_connection_type p.0 }) p.1
  ]

  abbrev pub serialize_each : List Description → Text
  serialize_each [] = []
  serialize_each (d ∷ ds) = serialize d ++ serialize_each ds

  unfoldable pub serialize_all : List Description → Text
  serialize_all ds = field (numbers.print (length ds)) (serialize_each ds)

-- What deserialize leaves: the descriptions, the rest of the data and its result.
pub record ParsedAll : Type 0 where
  pub descriptions : List Description
  pub rest : Text
  pub success : Bool

module _ (numbers : Numbers) where
  -- The loop over n descriptions.
  unfoldable pub deserialize_each : ℕ → Text → List Description → ParsedAll
  deserialize_each zero t ds = record { descriptions = ds; rest = t; success = true }
  deserialize_each (suc n) t ds =
      let p = from_string numbers new_description t in
      let more = deserialize_each n p.rest (ds ++ p.description ∷ []) in
      if p.success then more else record { descriptions = ds; rest = p.rest; success = false }

  -- The tests for no separator, nothing before it and no digit first are one here.
  unfoldable pub deserialize_all : Text → List Description → ParsedAll
  deserialize_all t ds = elim (cut separator t) [
    | none ↦ record { descriptions = ds; rest = t; success = false }
    | some p ↦
        if starts_with_digit p.0
        then deserialize_each (numbers.parse p.0) p.1 ds
        else record { descriptions = ds; rest = t; success = false }
  ]
