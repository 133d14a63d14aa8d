-- ===== src/Description/Nodes/NodeRoundTrip.antt =====
-- co/node.cpp: what Node::serialize writes, Node::deserialize reads.
use collage.Prelude.{
  ℕ, ◌<◌, ◌≡◌, refl, ap, ◌∙◌, Bool, true, false, not, [], ◌∷◌, ◌++◌, arith, ◌==◌, if_false, length,
  All, u128_mod,
}
use collage.Description.{Text, IsNumbers, field, serialize_all, ParsedAll, starts_with_digit}
use collage.Description.Fields.{IsPlain, cut-field}
use collage.Description.RoundTrip.{IsPortable, field-append, deserialize_all-serialize_all}
use collage.Description.Nodes.{
  Format, NodeData, ParsedNode, with_part, bool_number, serialize_node, deserialize_node,
}

-- The text of an identifier gives it back; it is not empty and has no separator in it.
pub record IsFormat (format : Format) : Type 0 where
  pub numbers : IsNumbers format.numbers
  pub parse-print_id : (id : ℕ) → id < u128_mod → format.parse_id (format.print_id id) ≡ id
  pub plain : (id : ℕ) → IsPlain (format.print_id id)
  pub filled : (id : ℕ) → 0 < length (format.print_id id)

pub record IsPortableNode (n : NodeData) : Type 0 where
  pub id : n.id < u128_mod
  pub few : length n.connection_descriptions < 0x80000000
  pub descriptions : All IsPortable n.connection_descriptions

with_part-field :
    (n : NodeData) (t rest : Text) (k : Text → Text → ParsedNode)
    → IsPlain t
    → 0 < length t
    → with_part n (field t rest) k ≡ k t rest
unfolding with_part
with_part-field n t rest k h filled =
    rw (cut-field t rest h, with_part) (if_false {b = length t == 0} _ _ (ground (arith, filled)))

digit-filled : (t : Text) → starts_with_digit t ≡ true → 0 < length t
digit-filled [] h = absurd (ground arith)
digit-filled (c ∷ t) h = omega arith

module _ (format : Format) (h : IsFormat format) where
  serialize_node-append :
      (n : NodeData) (rest : Text)
      → serialize_node format n ++ rest
        ≡ field (format.numbers.print format.major) (
            field (format.numbers.print format.minor) (
              field (format.print_id n.id) (
                field
                  (format.numbers.print (bool_number n.big_endian))
                  (serialize_all format.numbers n.connection_descriptions ++ rest))))
  unfolding serialize_node
  serialize_node-append n rest =
      rw
        (
          field-append (format.numbers.print format.major),
          field-append (format.numbers.print format.minor),
          field-append (format.print_id n.id),
          field-append (format.numbers.print (bool_number n.big_endian)),
        )
        refl

  big_endian-parse :
      (b : Bool) → not (format.numbers.parse (format.numbers.print (bool_number b)) == 0) ≡ b
  big_endian-parse true = ap (λ n. not (n == 0)) (h.numbers.parse-print 1 (omega arith))
  big_endian-parse false = ap (λ n. not (n == 0)) (h.numbers.parse-print 0 (omega arith))

  -- The text of a node gives back its identifier, its endianness and its descriptions, whatever the
  -- node held before, and leaves what follows: if its descriptions can be given back and the
  -- identifier has 128 bits.
  pub deserialize_node-serialize_node :
      (old n : NodeData) (rest : Text)
      → IsPortableNode n
      → deserialize_node format old (serialize_node format n ++ rest)
        ≡ record { node = n; rest = rest; success = true }
  unfolding deserialize_node
  deserialize_node-serialize_node old n rest p =
      let numbers = format.numbers in
      let print = numbers.print in
      let text = serialize_all numbers n.connection_descriptions ++ rest in
      let digits : (k : ℕ) → 0 < length (print k) =
        λ k. digit-filled (print k) (h.numbers.digit k) in
      let parsed : ℕ → Bool → ParsedAll → ParsedNode = λ id b q. record {
        node = record { id = id; big_endian = b; connection_descriptions = q.descriptions };
        rest = q.rest;
        success = q.success;
      } in
      let id = format.parse_id (format.print_id n.id) in
      ap (deserialize_node format old) (serialize_node-append n rest)
      ∙ with_part-field _ (print format.major) _ _ (h.numbers.plain format.major)
          (digits format.major)
      ∙ with_part-field _ (print format.minor) _ _ (h.numbers.plain format.minor)
          (digits format.minor)
      ∙ with_part-field _ (format.print_id n.id) _ _ (h.plain n.id) (h.filled n.id)
      ∙ with_part-field _ (print (bool_number n.big_endian)) _ _
          (h.numbers.plain (bool_number n.big_endian)) (digits (bool_number n.big_endian))
      ∙ ap (parsed id (not (numbers.parse (print (bool_number n.big_endian)) == 0))) (
          deserialize_all-serialize_all numbers h.numbers n.connection_descriptions [] rest
            p.descriptions p.few)
      ∙ ap
          (λ b.
            parsed id b
              (record { descriptions = n.connection_descriptions; rest = rest; success = true }))
          (big_endian-parse n.big_endian)
      ∙ ap
          (λ i.
            parsed i n.big_endian
              (record { descriptions = n.connection_descriptions; rest = rest; success = true }))
          (h.parse-print_id n.id p.id)
