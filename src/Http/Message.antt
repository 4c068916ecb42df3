-- ===== src/Http/Message.antt =====
-- src/http_message.cc and src/include/http_message.hh: methods, versions, status codes, the headers
-- of a message, and the printed forms.
use sylar_framework.Prelude.{ℕ, Bool, List, [], ◌∷◌, ◌++◌, map, length, if◌then◌else◌}
use sylar_framework.Prelude.Text.{Text, text, equal, before, to_upper, decimal}

pub data HttpMethod : Type 0 where
  get head post put delete connect options trace patch : HttpMethod

pub data HttpVersion : Type 0 where
  http_0_9 http_1_0 http_1_1 http_2_0 : HttpVersion

pub data HttpStatusCode : Type 0 where
  continue_ switching_protocols early_hints ok created accepted : HttpStatusCode
  non_authoritative_information no_content reset_content partical_content : HttpStatusCode
  multiple_choices moved_permanently found not_modified bad_request un_authorized : HttpStatusCode
  forbidden not_found method_not_allowed request_timeout im_a_teapot : HttpStatusCode
  internal_server_error not_implemented bad_gateway service_unavailable : HttpStatusCode
  gateway_timeout http_version_not_supported : HttpStatusCode

-- The exceptions of the parser.
pub data Error : Type 0 where
  invalid_argument logic_error : Error

pub data Result (A : Type 0) : Type 0 where
  value : A → Result A
  throw : Error → Result A

unfoldable pub method_to_string : HttpMethod → Text
method_to_string get = text "GET"
method_to_string head = text "HEAD"
method_to_string post = text "POST"
method_to_string put = text "PUT"
method_to_string delete = text "DELETE"
method_to_string connect = text "CONNECT"
method_to_string options = text "OPTIONS"
method_to_string trace = text "TRACE"
method_to_string patch = text "PATCH"

unfoldable pub version_to_string : HttpVersion → Text
version_to_string http_0_9 = text "HTTP/0.9"
version_to_string http_1_0 = text "HTTP/1.0"
version_to_string http_1_1 = text "HTTP/1.1"
version_to_string http_2_0 = text "HTTP/2.0"

-- `static_cast<int>` of a status code.
unfoldable pub status_number : HttpStatusCode → ℕ
status_number continue_ = 100
status_number switching_protocols = 101
status_number early_hints = 103
status_number ok = 200
status_number created = 201
status_number accepted = 202
status_number non_authoritative_information = 203
status_number no_content = 204
status_number reset_content = 205
status_number partical_content = 206
status_number multiple_choices = 300
status_number moved_permanently = 301
status_number found = 302
status_number not_modified = 304
status_number bad_request = 400
status_number un_authorized = 401
status_number forbidden = 403
status_number not_found = 404
status_number method_not_allowed = 405
status_number request_timeout = 408
status_number im_a_teapot = 418
status_number internal_server_error = 500
status_number not_implemented = 501
status_number bad_gateway = 502
status_number service_unavailable = 503
status_number gateway_timeout = 504
status_number http_version_not_supported = 505

unfoldable pub status_code_to_string : HttpStatusCode → Text
status_code_to_string continue_ = text "Continue"
status_code_to_string ok = text "OK"
status_code_to_string accepted = text "Accepted"
status_code_to_string moved_permanently = text "Moved Permanently"
status_code_to_string found = text "Found"
status_code_to_string bad_request = text "Bad Request"
status_code_to_string forbidden = text "Forbidden"
status_code_to_string not_found = text "Not Found"
status_code_to_string method_not_allowed = text "Method Not Allowed"
status_code_to_string im_a_teapot = text "I'm a Teapot"
status_code_to_string internal_server_error = text "Internal Server Error"
status_code_to_string not_implemented = text "Not Implemented"
status_code_to_string bad_gateway = text "Bad Gateway"
status_code_to_string _ = []

-- A ladder of comparisons.
abbrev pub first_equal : {A : Type 0} → Text → List (Text × A) → Result A
first_equal s [] = throw invalid_argument
first_equal s ((k, a) ∷ rest) = if equal s k then value a else first_equal s rest

abbrev pub method_names : List (Text × HttpMethod)
method_names =
    (text "GET", get)
    ∷ (text "HEAD", head)
    ∷ (text "POST", post)
    ∷ (text "PUT", put)
    ∷ (text "DELETE", delete)
    ∷ (text "CONNECT", connect)
    ∷ (text "OPTIONS", options)
    ∷ (text "TRACE", trace)
    ∷ (text "PATCH", patch)
    ∷ []

abbrev pub version_names : List (Text × HttpVersion)
version_names =
    (text "HTTP/0.9", http_0_9)
    ∷ (text "HTTP/1.0", http_1_0)
    ∷ (text "HTTP/1.1", http_1_1)
    ∷ (text "HTTP/2.0", http_2_0)
    ∷ []

unfoldable pub method_from_string : Text → Result HttpMethod
method_from_string s = first_equal (map to_upper s) method_names

unfoldable pub version_from_string : Text → Result HttpVersion
version_from_string s = first_equal (map to_upper s) version_names

-- `std::map<std::string, std::string>`, in the order of its keys.
abbrev pub Headers : Type 0
Headers = List (Text × Text)

-- `headers_[key] = val`.
unfoldable pub assign : Text → Text → Headers → Headers
assign k v [] = (k, v) ∷ []
assign k v ((j, w) ∷ m) =
    if equal j k
    then (k, v) ∷ m
    else if before k j
    then (k, v) ∷ (j, w) ∷ m
    else (j, w) ∷ assign k v m

-- `headers_.erase(key)`.
unfoldable pub erase : Text → Headers → Headers
erase k [] = []
erase k ((j, w) ∷ m) = if equal j k then m else (j, w) ∷ erase k m

-- `GetHeader`: the empty text for a key that is not there.
unfoldable pub get_header : Text → Headers → Text
get_header k [] = []
get_header k ((j, w) ∷ m) = if equal j k then w else get_header k m

-- `HttpMessageInterface`.
pub record Message : Type 0 where
  pub version : HttpVersion
  pub headers : Headers
  pub content : Text

abbrev pub new_message : Message
new_message = record { version = http_1_0; headers = []; content = [] }

abbrev pub content_length : Text
content_length = text "Content-Length"

unfoldable pub set_content_length : Message → Message
set_content_length m = record m {
  headers = assign content_length (decimal (length m.content)) m.headers;
}

unfoldable pub set_content : Text → Message → Message
unfolding set_content_length
set_content s m = set_content_length (record m { content = s })

unfoldable pub set_headers : Text → Text → Message → Message
unfolding set_content_length
set_headers k v m = set_content_length (record m { headers = assign k v m.headers })

pub record HttpRequest : Type 0 where
  pub message : Message
  pub method : HttpMethod
  pub path : Text

abbrev pub new_request : HttpRequest
new_request = record { message = new_message; method = get; path = [] }

pub record HttpResponse : Type 0 where
  pub message : Message
  pub status_code : HttpStatusCode

abbrev pub new_response : HttpStatusCode → HttpResponse
new_response code = record { message = new_message; status_code = code }

abbrev pub crlf : Text
crlf = 13 ∷ 10 ∷ []

-- The header lines, with what stands between a key and its value.
unfoldable pub header_lines : Text → Headers → Text
header_lines sep [] = []
header_lines sep ((k, v) ∷ m) = k ++ (sep ++ (v ++ (crlf ++ header_lines sep m)))

-- `HttpRequest::ToString`, which puts a space between a key and its value.
unfoldable pub request_to_string : HttpRequest → Text
request_to_string r =
    method_to_string r.method
    ++ (32
        ∷ (r.path
            ++ (32
                ∷ (version_to_string r.message.version
                    ++ (crlf
                        ++ (header_lines (32 ∷ []) r.message.headers
                            ++ (crlf ++ r.message.content)))))))

-- `HttpResponse::ToString`.
unfoldable pub response_to_string : Bool → HttpResponse → Text
response_to_string send_content r =
    version_to_string r.message.version
    ++ (32
        ∷ (decimal (status_number r.status_code)
            ++ (32
                ∷ (status_code_to_string r.status_code
                    ++ (crlf
                        ++ (header_lines (b':' ∷ 32 ∷ []) r.message.headers
                            ++ (crlf
                                ++ (if send_content then r.message.content ++ crlf else []))))))))
