-- ===== src/Tests/Description.antt =====
-- co/connectionDescription.cpp and co/node.cpp: a node with two descriptions, with numbers that are
-- printed in unary.
use collage.Prelude.{
  ℕ, zero, suc, ◌-◌, ◌≡◌, refl, ap, ◌≢◌, true, false, [], ◌∷◌, ◌++◌, arith, length, All,
}
use collage.Description.{
  Text, separator, Numbers, IsNumbers, named_pipe, rsp, Description, new_description, from_string,
  cut, parse_host, parse_tokens, set_type, get_connection_type,
}
use collage.Description.RoundTrip.{IsPortable}
use collage.Description.Nodes.{Format, NodeData, serialize_node, deserialize_node}
use collage.Description.Nodes.NodeRoundTrip.{deserialize_node-serialize_node}

abbrev ones : ℕ → Text
ones zero = []
ones (suc n) = 49 ∷ ones n

abbrev unary : Numbers
unary = record { print = λ n. 48 ∷ ones n; parse = λ t. length t - 1 }

length-ones : (n : ℕ) → length (ones n) ≡ n
length-ones zero = refl
length-ones (suc n) = ap suc (length-ones n)

plain_ones : (n : ℕ) → All (λ c. c ≢ separator) (ones n)
plain_ones zero = tt
plain_ones (suc n) = (omega arith, plain_ones n)

unary-IsNumbers : IsNumbers unary
unary-IsNumbers = record {
  parse-print = λ n _. omega (arith, length-ones n);
  plain = λ n. (omega arith, plain_ones n);
  digit = λ n. refl;
}

abbrev format : Format
format = record {
  numbers = unary;
  major = 1;
  minor = 2;
  print_id = unary.print;
  parse_id = unary.parse;
}

-- Hosts "ab" and "c", and the file "d".
abbrev multicast_group : Description
multicast_group = record new_description {
  connection_type = rsp;
  hostname = 97 ∷ 98 ∷ [];
  interface_name = 99 ∷ [];
  port = 5;
  bandwidth = 3;
}

abbrev pipe : Description
pipe = record new_description { connection_type = named_pipe; filename = 100 ∷ [] }

abbrev node : NodeData
node = record { id = 6; big_endian = true; connection_descriptions = multicast_group ∷ pipe ∷ [] }

abbrev other_node : NodeData
other_node = record { id = 4; big_endian = false; connection_descriptions = pipe ∷ [] }

default-IsPlain : All (λ c. c ≢ separator) new_description.filename
default-IsPlain = (
  omega arith,
  (omega arith, (omega arith, (omega arith, (omega arith, (omega arith, (omega arith, tt)))))),
)

multicast_group-IsPortable : IsPortable multicast_group
multicast_group-IsPortable = record {
  named = refl;
  bandwidth = omega arith;
  port = omega arith;
  hostname = (omega arith, (omega arith, tt));
  interface_name = (omega arith, tt);
  filename = default-IsPlain;
}

pipe-IsPortable : IsPortable pipe
pipe-IsPortable = record {
  named = refl;
  bandwidth = omega arith;
  port = omega arith;
  hostname = tt;
  interface_name = tt;
  filename = (omega arith, tt);
}

deserialize_node-serialize_node_example :
    deserialize_node format other_node (serialize_node format node ++ 33 ∷ [])
    ≡ record { node = node; rest = 33 ∷ []; success = true }
deserialize_node-serialize_node_example =
    deserialize_node-serialize_node format
      (record {
        numbers = unary-IsNumbers;
        parse-print_id = λ n _. omega (arith, length-ones n);
        plain = λ n. (omega arith, plain_ones n);
        filled = λ n. omega arith;
      })
      other_node node (33 ∷ [])
      (record {
        id = omega arith;
        few = omega arith;
        descriptions = (multicast_group-IsPortable, (pipe-IsPortable, tt));
      })

-- The host "h" with the port 1, in unary, and the type "RSP"
human_readable :
    from_string unary new_description (104 ∷ 58 ∷ 48 ∷ 49 ∷ 58 ∷ 82 ∷ 83 ∷ 80 ∷ []) ≡ record {
      description = record new_description { connection_type = rsp; hostname = 104 ∷ []; port = 1 };
      rest = [];
      success = true;
    }
unfolding from_string cut parse_host parse_tokens set_type get_connection_type
human_readable = refl
