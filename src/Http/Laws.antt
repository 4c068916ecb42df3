-- ===== src/Http/Laws.antt =====
-- Laws of the message texts, the parser, the handler table and one connection.
use sylar_framework.Prelude.{
  ◌≡◌, ◌↔◌, refl, sym, ap, ◌∙◌, inl, inr, List, [], ◌∷◌, ◌++◌, map, none, some, arith, length,
  if◌then◌else◌, Bool-cases, All,
}
use sylar_framework.Prelude.Text.{Text, equal, equal_iff, to_upper, break_on, decimal}
use sylar_framework.Http.Message.{
  HttpMethod, get, head, post, put, delete, connect, options, trace, patch, HttpVersion, http_0_9,
  http_1_0, http_1_1, http_2_0, Result, value, throw, method_to_string, method_from_string,
  version_to_string, version_from_string, first_equal, method_names, version_names, Headers, assign,
  get_header, Message, content_length, set_content_length, set_headers, set_content, HttpRequest,
  new_request, crlf,
}
use sylar_framework.Http.Parser.{
  from_string, parse_parts, with_method, with_version, parse_broken, or_both, extract, add_lines,
  lines,
}

-- A ladder whose entries bear the names of their results accepts a name only for its own result.
first_equal_sound :
    {A : Type 0} (name : A → Text) (s : Text) (a : A) (table : List (Text × A))
    → All (λ e. e.0 ≡ name e.1) table
    → first_equal s table ≡ value a
    → s ≡ name a
first_equal_sound name s a [] named h = cc
first_equal_sound name s a ((k, b) ∷ rest) named h = elim (Bool-cases (equal s k)) [
  | inl same ↦
      let e : value b ≡ value a = rw same at h in (equal_iff s k).0 same ∙ named.0 ∙ ap name (cc)
  | inr other ↦ first_equal_sound name s a rest named.1 (rw other at h)
]

method_from_string-back :
    (s : Text) (m : HttpMethod)
    → map to_upper s ≡ method_to_string m
    → method_from_string s ≡ value m
unfolding method_from_string method_to_string equal
method_from_string-back s get h = rw h refl
method_from_string-back s head h = rw h refl
method_from_string-back s post h = rw h refl
method_from_string-back s put h = rw h refl
method_from_string-back s delete h = rw h refl
method_from_string-back s connect h = rw h refl
method_from_string-back s options h = rw h refl
method_from_string-back s trace h = rw h refl
method_from_string-back s patch h = rw h refl

-- `MethodFromString` accepts exactly the names that `MethodToString` prints, in any case of their
-- letters, and gives the method back.
pub method_from_string_iff :
    (s : Text) (m : HttpMethod)
    → (method_from_string s ≡ value m) ↔ (map to_upper s ≡ method_to_string m)
unfolding method_from_string method_to_string
method_from_string_iff s m = (
  first_equal_sound method_to_string (map to_upper s) m method_names
      (refl, (refl, (refl, (refl, (refl, (refl, (refl, (refl, (refl, tt))))))))),
  method_from_string-back s m,
)

version_from_string-back :
    (s : Text) (v : HttpVersion)
    → map to_upper s ≡ version_to_string v
    → version_from_string s ≡ value v
unfolding version_from_string version_to_string equal
version_from_string-back s http_0_9 h = rw h refl
version_from_string-back s http_1_0 h = rw h refl
version_from_string-back s http_1_1 h = rw h refl
version_from_string-back s http_2_0 h = rw h refl

-- `VersionFromString` accepts exactly the names that `VersionToString` prints, in any case.
pub version_from_string_iff :
    (s : Text) (v : HttpVersion)
    → (version_from_string s ≡ value v) ↔ (map to_upper s ≡ version_to_string v)
unfolding version_from_string version_to_string
version_from_string_iff s v = (
  first_equal_sound version_to_string (map to_upper s) v version_names
      (refl, (refl, (refl, (refl, tt)))),
  version_from_string-back s v,
)

-- An assignment is seen by its own key alone.
pub get_header-assign :
    (j k v : Text) (m : Headers)
    → get_header j (assign k v m) ≡ (if equal k j then v else get_header j m)
unfolding get_header assign
get_header-assign j k v [] = refl
get_header-assign j k v ((i, w) ∷ m) =
    ground (arith, equal_iff k j, equal_iff i k, equal_iff i j, get_header-assign j k v m)

-- A header set is read back, the others stay, and "Content-Length" is the length of the content
-- whatever value was given for it.
pub get_header-set_headers :
    (j k v : Text) (m : Message)
    → get_header j (set_headers k v m).headers ≡ (
        if equal content_length j
        then decimal (length m.content)
        else if equal k j
        then v
        else get_header j m.headers)
unfolding set_headers
get_header-set_headers j k v m =
    get_header-assign j content_length (decimal (length m.content)) (assign k v m.headers)
    ∙ ap (λ t. if equal content_length j then decimal (length m.content) else t)
        (get_header-assign j k v m.headers)

abbrev Emptied : HttpRequest → Type 0
Emptied r = (r.message.content ≡ []) × (r.message.headers ≡ (content_length, decimal 0) ∷ [])

with_version-Emptied :
    (q r : HttpRequest) (v : Result HttpVersion)
    → q.message.headers ≡ []
    → with_version q [] [] v ≡ (r, none)
    → Emptied r
unfolding with_version set_content set_content_length add_lines lines assign
with_version-Emptied q r (throw e) fresh h = cc
with_version-Emptied q r (value http_2_0) fresh h = cc
with_version-Emptied q r (value http_0_9) fresh h = ground (arith, ap (λ p. p.0) h)
with_version-Emptied q r (value http_1_0) fresh h = ground (arith, ap (λ p. p.0) h)
with_version-Emptied q r (value http_1_1) fresh h = ground (arith, ap (λ p. p.0) h)

with_method-Emptied :
    (q r : HttpRequest) (version : Text) (m : Result HttpMethod)
    → q.message.headers ≡ []
    → with_method q version [] [] m ≡ (r, none)
    → Emptied r
unfolding with_method
with_method-Emptied q r version (throw e) fresh h = cc
with_method-Emptied q r version (value m) fresh h =
    with_version-Emptied (record q { method = m }) r (version_from_string version) fresh h

-- When what follows the first line end holds no two line ends in a row, as when the empty line
-- follows the start line at once and the body neither starts with a line end nor holds two in a row,
-- a request that is accepted is left with no content, and with no header but a content length of 0.
pub from_string-no_headers :
    (request start rest : Text) (r : HttpRequest)
    → break_on crlf request ≡ some (start, rest)
    → break_on (crlf ++ crlf) rest ≡ none
    → from_string new_request request ≡ (r, none)
    → (r.message.content ≡ []) × (r.message.headers ≡ (content_length, decimal 0) ∷ [])
unfolding from_string
from_string-no_headers request start rest r first second accepted =
    let (method, s1) = extract [] start in
    let (path, s2) = extract [] s1 in
    let (version, s3) = extract [] s2 in
    with_method-Emptied (record new_request { path = path }) r version (method_from_string method)
      refl
      (ap (λ p. parse_parts new_request start (or_both [] p)) (sym second)
        ∙ ap (parse_broken new_request) (sym first)
        ∙ accepted)
