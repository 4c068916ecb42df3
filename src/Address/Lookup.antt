-- ===== src/Address/Lookup.antt =====
-- src/address.cc: `Lookup`, `LookupAny`, `LookupAnyIPAddress` and `IPAddress::Create`. `getaddrinfo` is
-- a parameter, with the hints that the code gives it.
use sylar_framework.Prelude.{
  ℕ, Bool, true, false, ◌==◌, List, [], ◌∷◌, ◌++◌, Option, none, some, if◌then◌else◌,
}
use sylar_framework.Prelude.Text.{Text}
use sylar_framework.Address.IpAddress.{SockAddr, IpAddress, create, set_port}

-- `memchr`: what stands before the first such byte, and what stands behind it.
unfoldable pub memchr : ℕ → Text → Option (Text × Text)
memchr c [] = none
memchr c (x ∷ s) =
    let later : Option (Text × Text) = elim (memchr c s) [
      | none ↦ none
      | some (a, b) ↦ some (x ∷ a, b)
    ] in
    if x == c then some ([], s) else later

-- `c_str()`, as the calls that take it read it.
unfoldable pub c_string : Text → Text
c_string [] = []
c_string (x ∷ s) = let rest = c_string s in if x == 0 then [] else x ∷ rest

-- What follows the bracket: a colon and the service. `inner` keeps its brackets.
abbrev behind_bracket : Text → Text → Text × Text
behind_bracket inner [] = ([], [])
behind_bracket inner (x ∷ service) =
    if x == b':' then (b'[' ∷ inner ++ b']' ∷ [], service) else ([], [])

-- The three ways of `Lookup` to the node and the service.
unfoldable pub bracketed : Text → Text × Text
bracketed [] = ([], [])
bracketed (x ∷ s) = elim (memchr b']' s) [
  | none ↦ ([], [])
  | some (inner, rest) ↦ if x == b'[' then behind_bracket inner rest else ([], [])
]

unfoldable pub by_colon : Text → Text × Text → Text × Text
by_colon host ([], service) = elim (memchr b':' host) [ none ↦ ([], service) | some p ↦ p ]
by_colon host (x ∷ node, service) = (x ∷ node, service)

abbrev by_name : Text → Text × Text → Text × Text
by_name host ([], service) = (host, service)
by_name host (x ∷ node, service) = (x ∷ node, service)

unfoldable pub split_host : Text → Text × Text
unfolding bracketed by_colon
split_host host = by_name host (by_colon host (bracketed host))

-- The loop over the list of `getaddrinfo`: `result` is behind, and `none` is the exception of `Create`.
unfoldable pub push_all :
    List (Option IpAddress) → List (Option SockAddr) → Option (List (Option IpAddress))
unfolding create
push_all result [] = some result
push_all result (a ∷ nxt) = elim (create a) [
  | none ↦ none
  | some p ↦ push_all (result ++ p ∷ []) nxt
]

abbrev pub is_empty : List (Option IpAddress) → Bool
is_empty [] = true
is_empty (x ∷ xs) = false

module _ (getaddrinfo : Text → Text → Option (List (Option SockAddr))) where
  -- `Lookup`: the result and what it returns, or an exception.
  unfoldable pub lookup : List (Option IpAddress) → Text → Option (List (Option IpAddress) × Bool)
  unfolding split_host push_all c_string
  lookup result host =
      elim (getaddrinfo (c_string (split_host host).0) (c_string (split_host host).1)) [
        | none ↦ none
        | some res ↦ elim (push_all result res) [
          | none ↦ none
          | some all ↦ some (all, if is_empty all then false else true)
        ]
      ]

  -- `LookupAny`.
  unfoldable pub lookup_any : Text → Option (Option IpAddress)
  unfolding lookup
  lookup_any host = elim (lookup [] host) [
    | none ↦ none
    | some ([], found) ↦ some none
    | some (p ∷ ps, found) ↦ if found then some p else some none
  ]

  -- `LookupAnyIPAddress`: the first round of its loop returns. Every address is an `IPAddress`.
  unfoldable pub first_item : List (Option IpAddress) → Option IpAddress
  first_item [] = none
  first_item (p ∷ ps) = p

  unfoldable pub lookup_any_ip_address : Text → Option (Option IpAddress)
  unfolding lookup first_item
  lookup_any_ip_address host = elim (lookup [] host) [
    | none ↦ none
    | some (res, found) ↦ if found then some (first_item res) else some none
  ]

-- `IPAddress::Create`; this `getaddrinfo` takes numeric addresses alone, and its list has a head.
module _ (htons ntohs : ℕ → ℕ)
    (getaddrinfo : Text → Option (Option SockAddr × List (Option SockAddr))) where
  unfoldable pub create_ip_address : Text → ℕ → Option (Option IpAddress)
  unfolding create c_string set_port
  create_ip_address address port = elim (getaddrinfo (c_string address)) [
    | none ↦ none
    | some (res, rest) ↦ elim (create res) [
      | none ↦ none
      | some none ↦ some none
      | some (some p) ↦ some (some (set_port htons ntohs p port))
    ]
  ]
