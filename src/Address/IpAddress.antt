-- ===== src/Address/IpAddress.antt =====
-- src/address.cc and src/include/address.hh: `IPv4Address` and `IPv6Address`. `htons`, `ntohs`,
-- `inet_pton` and `inet_ntop` are parameters; memory that no constructor sets is a parameter too.
use sylar_framework.Prelude.{ℕ, ◌%◌, ◌^◌, List, ◌∷◌, ◌++◌, Option, none, some, replicate}
use sylar_framework.Prelude.Text.{Text, text, decimal}

pub data Family : Type 0 where
  inet inet6 : Family
  other_family : ℕ → Family

-- The fields of `sockaddr_in` and `sockaddr_in6` that the code uses, the port as the network has it.
pub record SockAddr : Type 0 where
  pub family : Family
  pub port : ℕ
  pub host : List ℕ

-- The classes.
pub data IpAddress : Type 0 where
  ipv4 ipv6 : SockAddr → IpAddress

-- `inet_pton`: less than 0, 0, and the bytes of the address.
pub data Parsed : Type 0 where
  unsupported invalid : Parsed
  parsed : List ℕ → Parsed

abbrev pub sockaddr : IpAddress → SockAddr
sockaddr (ipv4 a) = a
sockaddr (ipv6 a) = a

-- `GetFamily`.
unfoldable pub get_family : IpAddress → Family
get_family (ipv4 a) = a.family
get_family (ipv6 a) = a.family

-- `Address::Create` for a `sockaddr`, `none` for `nullptr`: the exception is `none`.
unfoldable pub create : Option SockAddr → Option (Option IpAddress)
create none = some none
create (some a) = elim a.family [
  | inet ↦ some (some (ipv4 a))
  | inet6 ↦ some (some (ipv6 a))
  | other_family n ↦ none
]

-- `IPv6Address()`.
unfoldable pub new_ipv6 : SockAddr
new_ipv6 = record { family = inet6; port = 0; host = replicate 16 0 }

module _ (htons ntohs : ℕ → ℕ) where
  -- `GetPort` and `SetPort`, whose argument is cut to the 16 bits of `htons` and `ntohs`.
  unfoldable pub get_port : IpAddress → ℕ
  get_port (ipv4 a) = ntohs a.port
  get_port (ipv6 a) = ntohs a.port

  unfoldable pub set_port : IpAddress → ℕ → IpAddress
  set_port (ipv4 a) val = ipv4 (record a { port = htons (val % 2 ^ 16) })
  set_port (ipv6 a) val = ipv6 (record a { port = ntohs (val % 2 ^ 16) })

  module _ (inet_pton : Family → Text → Parsed) where
    -- What `inet_pton` makes of the address in an object, if it does not make the code throw.
    abbrev converted : Family → Text → SockAddr → Option SockAddr
    converted f address a = elim (inet_pton f address) [
      | unsupported ↦ none
      | invalid ↦ some a
      | parsed h ↦ some (record a { host = h })
    ]

    abbrev pub as_v4 : Option SockAddr → Option IpAddress
    as_v4 none = none
    as_v4 (some a) = some (ipv4 a)

    abbrev pub as_v6 : Option SockAddr → Option IpAddress
    as_v6 none = none
    as_v6 (some a) = some (ipv6 a)

    -- `IPv4Address(address, port)` in the memory `m`.
    unfoldable pub construct_ipv4 : SockAddr → Text → ℕ → Option IpAddress
    construct_ipv4 m address port =
        as_v4 (converted inet address (record m { family = inet; port = htons (port % 2 ^ 16) }))

    -- `IPv4Address::Create`, with the default arguments of the constructor.
    unfoldable pub create_ipv4 : SockAddr → Text → ℕ → Option IpAddress
    unfolding construct_ipv4
    create_ipv4 m address port = elim (construct_ipv4 m (text "127.0.0.1") 80) [
      | none ↦ none
      | some p ↦ as_v4 (
          converted inet address
            (record (sockaddr p) { family = inet; port = htons (port % 2 ^ 16) }))
    ]

    -- `IPv6Address(address, port)` in the memory `m`.
    unfoldable pub construct_ipv6 : SockAddr → Text → ℕ → Option IpAddress
    construct_ipv6 m address port =
        as_v6 (converted inet6 address (record m { port = htons (port % 2 ^ 16) }))

    -- `IPv6Address::Create`.
    unfoldable pub create_ipv6 : Text → ℕ → Option IpAddress
    unfolding new_ipv6
    create_ipv6 address port =
        as_v6 (converted inet6 address (record new_ipv6 { port = htons (port % 2 ^ 16) }))

  module _ (inet_ntop : Family → List ℕ → Text) where
    -- `Insert`, which `ToString` calls.
    unfoldable pub insert : IpAddress → Text
    unfolding get_port
    insert (ipv4 a) = inet_ntop inet a.host ++ b':' ∷ decimal (get_port (ipv4 a))
    insert (ipv6 a) = b'[' ∷ inet_ntop inet6 a.host ++ b']' ∷ b':' ∷ decimal (get_port (ipv6 a))
