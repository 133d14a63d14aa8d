-- ===== src/Description/Fields.antt =====
-- co/connectionDescription.cpp: one field of a text.
use collage.Prelude.{
  ◌≡◌, refl, ◌∙◌, ◌≢◌, Bool, true, false, some, [], ◌∷◌, arith, ◌==◌, if_false, contains, All,
}
use collage.Description.{
  Text, separator, cut, field, Description, Parsed, with_field, ConnectionType, type_none, ib,
  multicast, type_name, get_connection_type, tcpip, sdp, anon_pipe, named_pipe, rdma, udt, rsp,
}

-- A text without a separator in it
abbrev pub IsPlain : Text → Type 0
IsPlain = All (λ c. c ≢ separator)

pub cut-field : (t rest : Text) → IsPlain t → cut separator (field t rest) ≡ some (t, rest)
unfolding cut
cut-field [] rest h = refl
cut-field (c ∷ t) rest h =
    let other : (c == separator) ≡ false = ground (arith, h.0) in
    if_false _ _ other ∙ rw (cut-field t rest h.1) refl

pub with_field-field :
    (d : Description) (t rest : Text) (k : Text → Text → Parsed)
    → IsPlain t
    → with_field d (field t rest) k ≡ k t rest
unfolding with_field
with_field-field d t rest k h = rw (cut-field t rest h, with_field) refl

-- A type that has a name of its own
abbrev pub is_named : ConnectionType → Bool
is_named ib = false
is_named multicast = false
is_named t = true

abbrev pub IsNamed : ConnectionType → Type 0
IsNamed t = is_named t ≡ true

pub get_connection_type-type_name :
    (t : ConnectionType) → IsNamed t → get_connection_type (type_name t) ≡ t
unfolding get_connection_type
get_connection_type-type_name type_none h = refl
get_connection_type-type_name tcpip h = refl
get_connection_type-type_name sdp h = refl
get_connection_type-type_name anon_pipe h = refl
get_connection_type-type_name named_pipe h = refl
get_connection_type-type_name ib h = absurd (ground arith)
get_connection_type-type_name rdma h = refl
get_connection_type-type_name udt h = refl
get_connection_type-type_name multicast h = absurd (ground arith)
get_connection_type-type_name rsp h = refl

IsPlain-contains : (t : Text) → contains t separator ≡ false → IsPlain t
IsPlain-contains [] h = tt
IsPlain-contains (c ∷ t) h = (ground (arith, h), IsPlain-contains t (ground (arith, h)))

pub type_name-IsPlain : (t : ConnectionType) → IsPlain (type_name t)
type_name-IsPlain type_none = IsPlain-contains (type_name type_none) refl
type_name-IsPlain tcpip = IsPlain-contains (type_name tcpip) refl
type_name-IsPlain sdp = IsPlain-contains (type_name sdp) refl
type_name-IsPlain anon_pipe = IsPlain-contains (type_name anon_pipe) refl
type_name-IsPlain named_pipe = IsPlain-contains (type_name named_pipe) refl
type_name-IsPlain ib = IsPlain-contains (type_name ib) refl
type_name-IsPlain rdma = IsPlain-contains (type_name rdma) refl
type_name-IsPlain udt = IsPlain-contains (type_name udt) refl
type_name-IsPlain multicast = IsPlain-contains (type_name multicast) refl
type_name-IsPlain rsp = IsPlain-contains (type_name rsp) refl
