-- ===== src/Http/NotFound.antt =====
-- src/http_message.cc: `HttpResponse::Create404Response`. The text of `GetCurrentTime` is a parameter.
use sylar_framework.Prelude.{◌≡◌, refl, ◌++◌, length}
use sylar_framework.Prelude.Text.{Text, text, equal, before, decimal}
use sylar_framework.Http.Message.{
  HttpResponse, ok, new_response, set_headers, set_content, set_content_length, assign, get_header,
  content_length,
}

abbrev page : Text
page =
    text "<html>\n"
    ++ (text "<head><title>404 Not Found</title></head>\n"
        ++ (text "<body>\n"
            ++ (text "<h1>Not Found</h1>\n"
                ++ (text "<p>The requested URL was not found on this server.</p>\n"
                    ++ (text "<hr>\n"
                        ++ (text "<address>CustomServer/1.0 Server</address>\n"
                            ++ (text "</body>\n" ++ text "</html>")))))))

-- `Create404Response`: the status is the default one.
unfoldable pub create_404_response : Text → HttpResponse
unfolding set_headers set_content
create_404_response now =
    let m = (new_response ok).message in
    let dated = set_headers (text "Data") now m in
    let served = set_headers (text "Server") (text "CustomServer/1.0") dated in
    let typed = set_headers (text "Content-Type") (text "text/html; charset=UTF-8") served in
    let closing = set_headers (text "Connection") (text "close") typed in
    record (new_response ok) { message = set_content page closing }

-- Whatever the time, the page for a path that is not there has the status of success, and its length
-- is that of its content.
pub create_404_response-ok :
    (now : Text)
    → ((create_404_response now).status_code ≡ ok)
      × (get_header content_length (create_404_response now).message.headers
          ≡ decimal (length page))
unfolding create_404_response set_headers set_content set_content_length assign get_header equal
    before
create_404_response-ok now = (refl, refl)
