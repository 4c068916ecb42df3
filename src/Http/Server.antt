-- ===== src/Http/Server.antt =====
-- src/http_server.cc and src/include/http_server.hh: the handler table, `HandleRequestMessage` and
-- `HandleRequestData`. A handler is code of the application: it answers, or throws.
use sylar_framework.Prelude.{
  ℕ, Bool, not, List, [], ◌∷◌, Option, none, some, length, ltb, ◌==◌, if◌then◌else◌,
}
use sylar_framework.Prelude.Text.{Text, text, equal, break_on}
use sylar_framework.Http.Message.{
  HttpMethod, get, head, post, put, delete, connect, options, trace, patch, HttpStatusCode,
  not_found, method_not_allowed, bad_request, http_version_not_supported, internal_server_error,
  Error, invalid_argument, logic_error, set_content, get_header, HttpRequest, new_request,
  HttpResponse, new_response, response_to_string,
}
use sylar_framework.Http.Parser.{Parsed, or_both, from_string}

-- The classes of exception that `HandleRequestData` tells apart, with `what()`.
pub data Thrown : Type 0 where
  invalid logic other : Text → Thrown

pub data Answer : Type 0 where
  answers : HttpResponse → Answer
  throws : Thrown → Answer

abbrev pub Handler : Type 0
Handler = HttpRequest → Answer

abbrev pub Table : Type 0 → Type 0
Table H = List (Text × List (HttpMethod × H))

abbrev pub Handlers : Type 0
Handlers = Table Handler

unfoldable pub method_number : HttpMethod → ℕ
method_number get = 0
method_number head = 1
method_number post = 2
method_number put = 3
method_number delete = 4
method_number connect = 5
method_number options = 6
method_number trace = 7
method_number patch = 8

unfoldable pub same_method : HttpMethod → HttpMethod → Bool
unfolding method_number
same_method a b = method_number a == method_number b

unfoldable pub find_method : {H : Type 0} → HttpMethod → List (HttpMethod × H) → Option H
find_method m [] = none
find_method m ((k, h) ∷ rest) = if same_method k m then some h else find_method m rest

unfoldable pub find_path : {A : Type 0} → Text → List (Text × A) → Option A
find_path p [] = none
find_path p ((k, ms) ∷ rest) = if equal k p then some ms else find_path p rest

-- `insert` of a map: a method that is there keeps its handler.
unfoldable pub insert_method :
    {H : Type 0} → HttpMethod → H → List (HttpMethod × H) → List (HttpMethod × H)
insert_method m h [] = (m, h) ∷ []
insert_method m h ((k, g) ∷ rest) =
    if same_method k m then (k, g) ∷ rest else (k, g) ∷ insert_method m h rest

-- `RegisterHttpRequestHandler`.
unfoldable pub register_handler : {H : Type 0} → Text → HttpMethod → H → Table H → Table H
register_handler p m h [] = (p, (m, h) ∷ []) ∷ []
register_handler p m h ((k, ms) ∷ rest) =
    if equal k p then (k, insert_method m h ms) ∷ rest else (k, ms) ∷ register_handler p m h rest

-- The path up to its first question mark.
abbrev pub cut_query : Text → Text
cut_query path = (or_both path (break_on (b'?' ∷ []) path)).0

unfoldable pub call_handler : HttpRequest → Option Handler → Answer
call_handler r none = answers (new_response method_not_allowed)
call_handler r (some h) = h r

unfoldable pub dispatch : HttpRequest → Option (List (HttpMethod × Handler)) → Answer
unfolding call_handler
dispatch r none = answers (new_response not_found)
dispatch r (some ms) = call_handler r (find_method r.method ms)

-- `HandleRequestMessage`.
unfoldable pub handle_request_message : Handlers → HttpRequest → Answer
unfolding dispatch
handle_request_message hs r = dispatch r (find_path (cut_query r.path) hs)

-- A response with the given status, and the exception's message for content.
abbrev pub failure : HttpStatusCode → Text → HttpResponse
failure code what = record {
  message = set_content what (new_response code).message;
  status_code = code;
}

-- The catch clauses.
unfoldable pub recover : Answer → HttpResponse
recover (answers r) = r
recover (throws (invalid what)) = failure bad_request what
recover (throws (logic what)) = failure http_version_not_supported what
recover (throws (other what)) = failure internal_server_error what

-- The messages of the parser's exceptions are fixed texts of http_message.cc, given here by a
-- function.
abbrev pub parse_failure : (Error → Text) → Error → Answer
parse_failure what invalid_argument = throws (invalid (what invalid_argument))
parse_failure what logic_error = throws (logic (what logic_error))

unfoldable pub answer_parsed : (Error → Text) → Handlers → Parsed → HttpRequest × HttpResponse
answer_parsed what hs (r, some e) = (r, recover (parse_failure what e))
answer_parsed what hs (r, none) = (r, recover (handle_request_message hs r))

abbrev pub is_head : HttpMethod → Bool
is_head m = same_method m head

-- `EventData::buf_`.
abbrev pub max_buffer_size : ℕ
max_buffer_size = 4096

pub record Reply : Type 0 where
  pub bytes : Text
  pub keep_alive : Bool

abbrev pub reply_to : HttpRequest × HttpResponse → Reply
reply_to (r, res) = record {
  bytes = response_to_string (not (is_head r.method)) res;
  keep_alive = equal (get_header (text "Connection") r.message.headers) (text "keep-alive");
}

-- `HandleRequestData`, before the copy.
unfoldable pub reply_of : (Error → Text) → Handlers → Text → Reply
unfolding answer_parsed
reply_of what hs request = reply_to (answer_parsed what hs (from_string new_request request))

-- `HandleRequestData`: the copy into the buffer is not bounded, and `none` is a copy past its end.
unfoldable pub handle_request_data : (Error → Text) → Handlers → Text → Option Reply
handle_request_data what hs request =
    let reply = reply_of what hs request in
    if ltb max_buffer_size (length reply.bytes) then none else some reply
