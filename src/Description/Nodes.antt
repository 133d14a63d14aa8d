-- ===== src/Description/Nodes.antt =====
-- co/node.cpp: Node::serialize and Node::deserialize. How a node identifier is printed and parsed is
-- a parameter. A mismatch of the versions is only reported, so that the parsed versions are not kept.
pub mod NodeRoundTrip
use collage.Prelude.{ℕ, Bool, false, not, none, some, List, [], ◌==◌, if◌then◌else◌, length}
use collage.Description.{
  Text, separator, Numbers, cut, field, Description, serialize_all, deserialize_all,
}

-- Version::getMajor() and getMinor(), and the text of an identifier
pub record Format : Type 0 where
  pub numbers : Numbers
  pub major : ℕ
  pub minor : ℕ
  pub print_id : ℕ → Text
  pub parse_id : Text → ℕ

-- The members of detail::Node that are sent.
pub record NodeData : Type 0 where
  pub id : ℕ
  pub big_endian : Bool
  pub connection_descriptions : List Description

pub record ParsedNode : Type 0 where
  pub node : NodeData
  pub rest : Text
  pub success : Bool

-- The next part, which must not be empty.
unfoldable pub with_part : NodeData → Text → (Text → Text → ParsedNode) → ParsedNode
with_part n t parse_rest = elim (cut separator t) [
  | none ↦ record { node = n; rest = t; success = false }
  | some p ↦
      if length p.0 == 0 then record { node = n; rest = t; success = false } else parse_rest p.0 p.1
]

abbrev pub bool_number : Bool → ℕ
bool_number b = if b then 1 else 0

module _ (format : Format) where
  unfoldable pub serialize_node : NodeData → Text
  serialize_node n = field (format.numbers.print format.major) (
      field (format.numbers.print format.minor) (
        field (format.print_id n.id) (
          field (format.numbers.print (bool_number n.big_endian))
            (serialize_all format.numbers n.connection_descriptions))))

  unfoldable pub deserialize_node : NodeData → Text → ParsedNode
  deserialize_node n t = with_part n t (λ major t1. with_part n t1 (λ minor t2.
      with_part n t2 (λ id t3.
        let n1 = record n { id = format.parse_id id } in
        with_part n1 t3 (λ endian t4.
          let n2 = record n1 { big_endian = not (format.numbers.parse endian == 0) } in
          let p = deserialize_all format.numbers t4 [] in
          record {
            node = record n2 { connection_descriptions = p.descriptions };
            rest = p.rest;
            success = p.success;
          }))))
