-- ===== src/ByteArray/Tests.antt =====
-- src/bytearray.cc: the byte array at concrete inputs. `fresh` is a new array of one block of 128
-- bytes, `full` one whose last block is full, `spare` one with an empty block behind the current.
use sylar_framework.Prelude.{
  ◌-◌, ◌≤◌, ◌≡◌, refl, sym, ap, ◌∙◌, inl, List, [], ◌∷◌, ◌++◌, none, some, arith, length, drop,
}
use sylar_framework.ByteArray.Chain.{
  Cell, Node, at, ByteArray, done, faulted, new_node, create, write, read,
}
use sylar_framework.ByteArray.Content.{content, IsValid}
use sylar_framework.ByteArray.Append.{write-content}
use sylar_framework.ByteArray.Ready.{push, pull, IsReady, view, create-IsReady}
use sylar_framework.ByteArray.Fifo.{write-push, read-pull, read-write}
use sylar_framework.ByteArray.Lost.{read_lost}
use sylar_framework.ByteArray.Word.{little, big}
use sylar_framework.ByteArray.Varint.{
  signed, encode_zigzag, decode_zigzag, write_varint, read_varint, write_string, read_string,
}
use sylar_framework.ByteArray.Fixed.{read_fixed-write_fixed}
use sylar_framework.ByteArray.Word.{write_fixed, read_fixed}
use sylar_framework.ByteArray.ZigZag.{decode_zigzag-encode_zigzag}
use sylar_framework.ByteArray.Trip.{read_varint-write_varint, read_string-write_string}

abbrev fresh : ByteArray
fresh = create 0

fresh-IsReady : IsReady fresh
fresh-IsReady = (create-IsReady 0).0

fresh_empty : fresh.read_pos ≡ length (content fresh)
fresh_empty = (create-IsReady 0).2 ∙ sym (ap length (create-IsReady 0).1)

abbrev three : List Cell
three = some 7 ∷ some 8 ∷ some 9 ∷ []

abbrev full_node : Node
full_node = record { cells = some 1 ∷ some 2 ∷ []; rest_size = 0 }

-- One byte of the two has been read.
abbrev full : ByteArray
full = record {
  base_size = 2;
  read_pos = 1;
  capacity = 2;
  before = [];
  chain = full_node ∷ [];
  reader = at 0;
}

full-IsValid : IsValid full
full-IsValid = record {
  base_pos = omega arith;
  behind = tt;
  ahead = (refl, omega arith, tt);
  covered = omega arith;
}

full-IsReady : IsReady full
full-IsReady = record {
  valid = full-IsValid;
  in_place = refl;
  within = omega arith;
  written = omega arith;
}

abbrev begun : Node
begun = record { cells = some 1 ∷ none ∷ []; rest_size = 1 }

abbrev spare : ByteArray
spare = record {
  base_size = 2;
  read_pos = 0;
  capacity = 4;
  before = [];
  chain = begun ∷ new_node 2 ∷ [];
  reader = at 0;
}

spare-IsValid : IsValid spare
spare-IsValid = record {
  base_pos = omega arith;
  behind = tt;
  ahead = (refl, omega arith, ((refl, refl), tt));
  covered = omega arith;
}

spare-IsReady : IsReady spare
spare-IsReady = record {
  valid = spare-IsValid;
  in_place = refl;
  within = omega arith;
  written = omega arith;
}

write-push_example :
    (b' : ByteArray) × (write full three ≡ done b')
    × (view b' ≡ push three (view full))
    × IsReady b'
write-push_example = write-push full three full-IsReady

write-content_example :
    (b' : ByteArray) × (write spare three ≡ done b')
    × IsValid b'
    × (content b' ≡ content spare ++ three)
    × (b'.read_pos ≡ 0)
    × (4 ≤ b'.capacity)
write-content_example = write-content spare three spare-IsValid

read-pull_example :
    (b' : ByteArray) × (read full 1 ≡ done (b', (pull 1 (view full)).1))
    × (view b' ≡ (pull 1 (view full)).0)
read-pull_example = read-pull full 1 full-IsReady (omega arith)

read-write_example :
    (b' b'' : ByteArray) × (write fresh three ≡ done b') × (read b' 3 ≡ done (b'', three))
read-write_example = read-write fresh three fresh-IsReady fresh_empty

read_lost_example :
    (b' b'' : ByteArray) × (read full (length (content full) - full.read_pos)
      ≡ done (b', drop full.read_pos (content full)))
    × (write b' three ≡ done b'')
    × (content b'' ≡ content full ++ three)
    × (read b'' 1 ≡ faulted)
read_lost_example = read_lost full full_node three 0 full-IsReady refl refl (omega arith)

decode_zigzag-encode_zigzag_example : decode_zigzag 8 (encode_zigzag signed 8 200) ≡ 200
decode_zigzag-encode_zigzag_example = decode_zigzag-encode_zigzag 7 200 (omega arith)

read_varint-write_varint_example :
    (b' b'' : ByteArray) × (write_varint little signed 8 5 fresh ≡ done b')
    × (read_varint little big 8 b' ≡ done (b'', some 5))
read_varint-write_varint_example =
    read_varint-write_varint big 7 5 fresh (inl refl) (omega arith) (inl (omega arith))
      fresh-IsReady fresh_empty

read_fixed-write_fixed_example :
    (b' b'' : ByteArray) × (write_fixed big little 2 513 fresh ≡ done b')
    × (read_fixed big little 2 b' ≡ done (b'', some 513))
read_fixed-write_fixed_example =
    read_fixed-write_fixed big little 2 513 fresh (inl refl) (omega arith) fresh-IsReady fresh_empty

read_string-write_string_example :
    (b' b'' : ByteArray) × (write_string little three fresh ≡ done b')
    × (read_string little big b' ≡ done (b'', some three))
read_string-write_string_example =
    read_string-write_string big three fresh (omega arith) fresh-IsReady fresh_empty
