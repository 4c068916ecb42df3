-- ===== src/Address/Ports.antt =====
-- Ports of the addresses, and what an IPv4 address is when its text is not one.
use sylar_framework.Prelude.{ℕ, ◌%◌, ◌^◌, ◌<◌, ◌≡◌, refl, arith, List, some}
use sylar_framework.Prelude.Text.{Text, text}
use sylar_framework.Address.IpAddress.{
  Family, inet, SockAddr, IpAddress, ipv4, ipv6, Parsed, invalid, parsed, get_port, set_port,
  create_ipv4, construct_ipv4, get_family,
}

module _ (htons ntohs : ℕ → ℕ) where
  -- `ntohs` undoes `htons`, and, exchanging two bytes or none, itself: a port that is set is read
  -- again, cut to 16 bits, and the family is not touched.
  pub get_port-set_port :
      (a : IpAddress) (val : ℕ)
      → ((n : ℕ) → n < 2 ^ 16 → ntohs (htons n) ≡ n)
      → ((n : ℕ) → n < 2 ^ 16 → ntohs (ntohs n) ≡ n)
      → (get_port htons ntohs (set_port htons ntohs a val) ≡ val % 2 ^ 16)
        × (get_family (set_port htons ntohs a val) ≡ get_family a)
  unfolding get_port set_port get_family
  get_port-set_port (ipv4 a) val h g = (h (val % 2 ^ 16) (omega arith), refl)
  get_port-set_port (ipv6 a) val h g = (g (val % 2 ^ 16) (omega arith), refl)

  -- `IPv4Address::Create` takes a text that is no address for the loopback address, which the
  -- constructor's default argument left there, with the port that was asked for.
  pub create_ipv4-invalid :
      (inet_pton : Family → Text → Parsed) (m : SockAddr) (address : Text) (port : ℕ)
      (loopback : List ℕ)
      → inet_pton inet (text "127.0.0.1") ≡ parsed loopback
      → inet_pton inet address ≡ invalid
      → create_ipv4 htons ntohs inet_pton m address port
        ≡ some (ipv4 (record { family = inet; port = htons (port % 2 ^ 16); host = loopback }))
  unfolding create_ipv4 construct_ipv4
  create_ipv4-invalid inet_pton m address port loopback h e = cc (h, e)
