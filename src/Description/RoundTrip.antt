-- ===== src/Description/RoundTrip.antt =====
-- co/connectionDescription.cpp: what serialize writes, fromString and deserialize read.
use collage.Prelude.{
  ℕ, suc, ◌%◌, ◌<◌, ◌≡◌, refl, sym, ap, ◌∙◌, true, List, [], ◌∷◌, ◌++◌, append_assoc, append-nil,
  arith, if_true, length, All,
}
use collage.Description.{
  Text, separator, Numbers, IsNumbers, ConnectionType, Description, new_description, type_name,
  field, Parsed, serialize, parse_fields, from_string, serialize_each, serialize_all,
  deserialize_each, deserialize_all,
}
use collage.Description.Fields.{
  IsPlain, IsNamed, cut-field, with_field-field, get_connection_type-type_name, type_name-IsPlain,
}

-- A description that its text can give back.
pub record IsPortable (d : Description) : Type 0 where
  pub named : IsNamed d.connection_type
  pub bandwidth : d.bandwidth < 0x80000000
  pub port : d.port < 0x10000
  pub hostname : IsPlain d.hostname
  pub interface_name : IsPlain d.interface_name
  pub filename : IsPlain d.filename

pub field-append : (t u rest : Text) → field t u ++ rest ≡ field t (u ++ rest)
field-append t u rest = append_assoc t (separator ∷ u) rest

module _ (numbers : Numbers) (h : IsNumbers numbers) where
  serialize-append :
      (d : Description) (rest : Text)
      → serialize numbers d ++ rest
        ≡ field (type_name d.connection_type) (
            field (numbers.print d.bandwidth) (
              field d.hostname
                (field d.interface_name (field (numbers.print d.port) (field d.filename rest)))))
  unfolding serialize
  serialize-append d rest =
      rw
        (
          field-append (type_name d.connection_type),
          field-append (numbers.print d.bandwidth),
          field-append d.hostname,
          field-append d.interface_name,
          field-append (numbers.print d.port),
          field-append d.filename,
        )
        refl

  parse_fields-fields :
      (e d : Description) (rest : Text)
      → IsPortable d
      → e.connection_type ≡ d.connection_type
      → parse_fields numbers e (
          field (numbers.print d.bandwidth) (
            field d.hostname
              (field d.interface_name (field (numbers.print d.port) (field d.filename rest)))))
        ≡ record { description = d; rest = rest; success = true }
  unfolding parse_fields
  parse_fields-fields e d rest p same =
      let parsed : ConnectionType → ℕ → ℕ → Parsed = λ t b n. record {
        description = record d { connection_type = t; bandwidth = b; port = n };
        rest = rest;
        success = true;
      } in
      with_field-field _ (numbers.print d.bandwidth) _ _ (h.plain d.bandwidth)
      ∙ with_field-field _ d.hostname _ _ p.hostname
      ∙ with_field-field _ d.interface_name _ _ p.interface_name
      ∙ with_field-field _ (numbers.print d.port) _ _ (h.plain d.port)
      ∙ with_field-field _ d.filename _ _ p.filename
      ∙ ap
          (λ t.
            parsed t (numbers.parse (numbers.print d.bandwidth))
              (numbers.parse (numbers.print d.port) % 0x10000))
          same
      ∙ ap (λ b. parsed d.connection_type b (numbers.parse (numbers.print d.port) % 0x10000))
          (h.parse-print d.bandwidth p.bandwidth)
      ∙ ap (parsed d.connection_type d.bandwidth)
          {x = numbers.parse (numbers.print d.port) % 0x10000} {y = d.port}
          (omega (arith, p.port, h.parse-print d.port (omega (arith, p.port))))

  from_string-serialize :
      (e d : Description) (rest : Text)
      → IsPortable d
      → from_string numbers e (serialize numbers d ++ rest)
        ≡ record { description = d; rest = rest; success = true }
  unfolding from_string
  from_string-serialize e d rest p =
      ap (from_string numbers e) (serialize-append d rest)
      ∙ rw
          (
            cut-field (type_name d.connection_type)
                (field (numbers.print d.bandwidth) (
                  field d.hostname (
                    field d.interface_name (field (numbers.print d.port) (field d.filename rest)))))
                (type_name-IsPlain d.connection_type),
            from_string,
          )
          (parse_fields-fields _ d rest p (get_connection_type-type_name d.connection_type p.named))

  deserialize_each-next :
      (n : ℕ) (old : List Description) (t rest : Text) (d : Description)
      → from_string numbers new_description t
        ≡ record { description = d; rest = rest; success = true }
      → deserialize_each numbers (suc n) t old ≡ deserialize_each numbers n rest (old ++ d ∷ [])
  unfolding deserialize_each
  deserialize_each-next n old t rest d e = rw (e, deserialize_each) refl

  deserialize_each-serialize_each :
      (ds old : List Description) (rest : Text)
      → All IsPortable ds
      → deserialize_each numbers (length ds) (serialize_each numbers ds ++ rest) old
        ≡ record { descriptions = old ++ ds; rest = rest; success = true }
  unfolding deserialize_each
  deserialize_each-serialize_each [] old rest p =
      ap (λ l. record { descriptions = l; rest = rest; success = true }) (sym (append-nil old))
  deserialize_each-serialize_each (d ∷ ds) old rest (p, ps) =
      ap (λ t. deserialize_each numbers (suc (length ds)) t old)
        (append_assoc (serialize numbers d) (serialize_each numbers ds) rest)
      ∙ deserialize_each-next (length ds) old _ (serialize_each numbers ds ++ rest) d
          (from_string-serialize new_description d (serialize_each numbers ds ++ rest) p)
      ∙ deserialize_each-serialize_each ds (old ++ d ∷ []) rest ps
      ∙ ap (λ l. record { descriptions = l; rest = rest; success = true })
          (append_assoc old (d ∷ []) ds)

  -- The text of a list of descriptions gives back the list, behind those that are there, and what
  -- follows it: if the types have a name, the numbers fit, and no name has a separator in it.
  pub deserialize_all-serialize_all :
      (ds old : List Description) (rest : Text)
      → All IsPortable ds
      → length ds < 0x80000000
      → deserialize_all numbers (serialize_all numbers ds ++ rest) old
        ≡ record { descriptions = old ++ ds; rest = rest; success = true }
  unfolding deserialize_all serialize_all
  deserialize_all-serialize_all ds old rest ps few =
      ap (λ t. deserialize_all numbers t old)
        (field-append (numbers.print (length ds)) (serialize_each numbers ds) rest)
      ∙ rw
          (
            cut-field (numbers.print (length ds)) (serialize_each numbers ds ++ rest)
                (h.plain (length ds)),
            deserialize_all,
          )
          (if_true _ _ (h.digit (length ds)))
      ∙ ap (λ n. deserialize_each numbers n (serialize_each numbers ds ++ rest) old)
          (h.parse-print (length ds) few)
      ∙ deserialize_each-serialize_each ds old rest ps
