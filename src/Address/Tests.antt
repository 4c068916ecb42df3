-- ===== src/Address/Tests.antt =====
-- src/address.cc: masks, hosts and lookups at concrete inputs.
use sylar_framework.Prelude.{
  ℕ, ◌+◌, ◌*◌, ◌/◌, ◌%◌, ◌≡◌, refl, inl, inr, List, [], ◌∷◌, ◌++◌, Option, none, some, arith,
  if◌then◌else◌, true, false,
}
use sylar_framework.Prelude.Text.{Text, text, decimal}
use sylar_framework.Address.Mask.{bit_count, ones_in, bit_count-ones_in}
use sylar_framework.Address.IpAddress.{
  Family, inet, inet6, SockAddr, IpAddress, ipv4, insert, get_port,
}
use sylar_framework.Address.Lookup.{split_host, lookup, is_empty}
use sylar_framework.Address.Hosts.{split_host_brackets, split_host-insert}
use sylar_framework.Address.Found.{AllFor, lookup-AllFor}

bit_count-ones_in_example : bit_count 201 ≡ some (ones_in 8 201)
bit_count-ones_in_example = bit_count-ones_in 8 201 (omega arith)

counted : bit_count 201 ≡ some 4
unfolding bit_count
counted = refl

-- A host with the two bytes of a word the other way round.
abbrev swapped : ℕ → ℕ
swapped n = n % 256 * 256 + n / 256 % 256

abbrev local : SockAddr
local = record { family = inet; port = 20480; host = 127 ∷ 0 ∷ 0 ∷ 1 ∷ [] }

abbrev printed : Family → List ℕ → Text
printed f h = text "127.0.0.1"

split_host-insert_example :
    split_host (insert swapped swapped printed (ipv4 local))
    ≡ (printed inet local.host, decimal (get_port swapped swapped (ipv4 local)))
split_host-insert_example =
    split_host-insert swapped swapped printed local b'1' (text "27.0.0.1") refl
      (refl, (refl, (refl, (refl, (refl, (refl, (refl, (refl, (refl, tt)))))))))

-- "[::1]:80" and "[::1]".
split_host_brackets_example :
    (split_host (b'[' ∷ ([] ++ b':' ∷ text ":1") ++ b']' ∷ b':' ∷ text "80")
      ≡ (b'[' ∷ ([] ++ b':' ∷ text ":1") ++ b']' ∷ [], text "80"))
    × (split_host (b'[' ∷ ([] ++ b':' ∷ text ":1") ++ b']' ∷ [])
        ≡ (b'[' ∷ [], text ":1" ++ b']' ∷ []))
split_host_brackets_example =
    split_host_brackets [] (text ":1") (text "80") (omega arith, (omega arith, (omega arith, tt)))
      tt

abbrev answers : Text → Text → Option (List (Option SockAddr))
answers node service = some (some local ∷ some (record local { family = inet6 }) ∷ [])

lookup-AllFor_example :
    (ps : List (Option IpAddress)) × (lookup answers (none ∷ []) (text "localhost:80")
      ≡ some ((none ∷ []) ++ ps, if is_empty ((none ∷ []) ++ ps) then false else true))
    × AllFor (some local ∷ some (record local { family = inet6 }) ∷ []) ps
lookup-AllFor_example =
    lookup-AllFor answers (none ∷ []) (text "localhost:80")
      (some local ∷ some (record local { family = inet6 }) ∷ []) refl (inl refl, (inr refl, tt))
