-- ===== src/Http/Parser.antt =====
-- src/http_message.cc: `HttpRequest::FromString`. A request that is refused keeps what had been set
-- before the exception, which the caller goes on to use.
use sylar_framework.Prelude.{List, [], ◌∷◌, ◌++◌, Option, none, some, ◌==◌, if◌then◌else◌}
use sylar_framework.Prelude.Text.{Text, is_space, remove_if, break_on}
use sylar_framework.Http.Message.{
  HttpMethod, HttpVersion, http_2_0, Error, invalid_argument, logic_error, Result, value, throw,
  method_from_string, version_from_string, Message, set_content, set_headers, HttpRequest, crlf,
}

-- The rest of a text from its first byte that is no space.
unfoldable pub skip_spaces : Text → Text
skip_spaces [] = []
skip_spaces (c ∷ s) = if is_space c then skip_spaces s else c ∷ s

-- The bytes up to the first space, and the rest.
unfoldable pub split_word : Text → Text × Text
split_word [] = ([], [])
split_word (c ∷ s) = let (w, r) = split_word s in if is_space c then ([], c ∷ s) else (c ∷ w, r)

-- `ss >> word`: at the end of the stream the variable keeps its value.
unfoldable pub extract_from : Text → Text → Text × Text
extract_from old [] = (old, [])
extract_from old (c ∷ s) = split_word (c ∷ s)

unfoldable pub extract : Text → Text → Text × Text
unfolding extract_from
extract old s = extract_from old (skip_spaces s)

-- `std::getline` until it fails: the lines, the last one without its newline if it is not empty.
unfoldable pub lines : Text → Text → List Text
lines [] [] = []
lines (c ∷ line) [] = (c ∷ line) ∷ []
lines line (c ∷ s) = if c == 10 then line ∷ lines [] s else lines (line ++ c ∷ []) s

abbrev pub or_both : Text → Option (Text × Text) → Text × Text
or_both d none = (d, d)
or_both d (some p) = p

-- One header line: without a colon, key and value are both the whole line.
unfoldable pub add_line : Message → Text → Message
add_line m line =
    let (key, val) = or_both line (break_on (b':' ∷ []) line) in
    set_headers (remove_if is_space key) (remove_if is_space val) m

unfoldable pub add_lines : Message → List Text → Message
add_lines m [] = m
add_lines m (l ∷ ls) = add_lines (add_line m l) ls

abbrev pub Parsed : Type 0
Parsed = HttpRequest × Option Error

-- From the version on.
unfoldable pub with_version : HttpRequest → Text → Text → Result HttpVersion → Parsed
with_version r head body (throw e) = (r, some e)
with_version r head body (value http_2_0) =
    (record r { message = record r.message { version = http_2_0 } }, some logic_error)
with_version r head body (value v) = (
  record r {
    message = set_content body (add_lines (record r.message { version = v }) (lines [] head));
  },
  none,
)

unfoldable pub with_method : HttpRequest → Text → Text → Text → Result HttpMethod → Parsed
unfolding with_version
with_method r version head body (throw e) = (r, some e)
with_method r version head body (value m) =
    with_version (record r { method = m }) head body (version_from_string version)

-- The start line, the header lines and the body.
unfoldable pub parse_parts : HttpRequest → Text → Text × Text → Parsed
unfolding with_method
parse_parts r start (head, body) =
    let (method, s1) = extract [] start in
    let (path, s2) = extract r.path s1 in
    let (version, s3) = extract [] s2 in
    with_method (record r { path = path }) version head body (method_from_string method)

-- Without an empty line after a header line there are no headers and there is no body.
abbrev pub head_and_body : Text → Text × Text
head_and_body rest = or_both [] (break_on (crlf ++ crlf) rest)

unfoldable pub parse_broken : HttpRequest → Option (Text × Text) → Parsed
unfolding parse_parts
parse_broken r none = (r, some invalid_argument)
parse_broken r (some (start, rest)) = parse_parts r start (head_and_body rest)

-- `HttpRequest::FromString`.
unfoldable pub from_string : HttpRequest → Text → Parsed
unfolding parse_broken
from_string r request = parse_broken r (break_on crlf request)
