-- ===== src/Address/Found.antt =====
-- What `Lookup` finds: an address for every entry of `getaddrinfo`'s list.
use sylar_framework.Prelude.{
  ◌≡◌, refl, ◌⊎◌, inl, inr, true, false, List, [], ◌∷◌, ◌++◌, append_assoc, append-nil, All, Option,
  none, some, if◌then◌else◌,
}
use sylar_framework.Prelude.Text.{Text}
use sylar_framework.Address.IpAddress.{inet, inet6, SockAddr, IpAddress, ipv4, ipv6, create}
use sylar_framework.Address.Lookup.{c_string, split_host, push_all, is_empty, lookup}

-- Entries with an address of one of the two families.
abbrev pub Known : Option SockAddr → Type 0
Known none = ⊥
Known (some a) = (a.family ≡ inet) ⊎ (a.family ≡ inet6)

-- An address object for an entry: its class is the one for the entry's family, and its fields are
-- the entry's.
abbrev pub For : Option SockAddr → Option IpAddress → Type 0
For (some a) (some p) = ((a.family ≡ inet) × (p ≡ ipv4 a)) ⊎ ((a.family ≡ inet6) × (p ≡ ipv6 a))
For _ _ = ⊥

abbrev pub AllFor : List (Option SockAddr) → List (Option IpAddress) → Type 0
AllFor [] [] = Unit
AllFor (a ∷ rest) (p ∷ ps) = For a p × AllFor rest ps
AllFor _ _ = ⊥

create-Known :
    (a : Option SockAddr) → Known a → (p : Option IpAddress) × (create a ≡ some p) × For a p
unfolding create
create-Known none h = elim h [ ]
create-Known (some a) (inl e) = (some (ipv4 a), cc e, inl (e, refl))
create-Known (some a) (inr e) = (some (ipv6 a), cc e, inr (e, refl))

push_all-Known :
    (result : List (Option IpAddress)) (res : List (Option SockAddr))
    → All Known res
    → (ps : List (Option IpAddress)) × (push_all result res ≡ some (result ++ ps)) × AllFor res ps
unfolding push_all
push_all-Known result [] h = ([], rw append-nil refl, tt)
push_all-Known result (a ∷ rest) (k, ks) =
    let c = create-Known a k in
    let r = push_all-Known (result ++ c.0 ∷ []) rest ks in
    (c.0 ∷ r.0, rw (push_all, c.1, r.1, append_assoc) refl, (c.2, r.2))

module _ (getaddrinfo : Text → Text → Option (List (Option SockAddr))) where
  -- When `getaddrinfo` answers with IPv4 and IPv6 addresses alone, `Lookup` puts behind what the
  -- result held an `IPv4Address` for each IPv4 entry and an `IPv6Address` for each IPv6 entry, with the
  -- entry's fields, in their order, and returns whether the result then holds anything.
  pub lookup-AllFor :
      (result : List (Option IpAddress)) (host : Text) (res : List (Option SockAddr))
      → getaddrinfo (c_string (split_host host).0) (c_string (split_host host).1) ≡ some res
      → All Known res
      → (ps : List (Option IpAddress)) × (lookup getaddrinfo result host
          ≡ some (result ++ ps, if is_empty (result ++ ps) then false else true))
        × AllFor res ps
  unfolding lookup
  lookup-AllFor result host res e h =
      let r = push_all-Known result res h in (r.0, rw (lookup, e, r.1) refl, r.2)
