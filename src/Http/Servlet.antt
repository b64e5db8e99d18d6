-- ===== src/Http/Servlet.antt =====
-- net/http/http_servlet.cpp: what a servlet puts into a response. What HandleGet and HandlePost of a
-- servlet do is an argument.
pub mod Files
use tirpc.Http.{HttpMethod, get, post, HttpRequest, HttpResponse}
use tirpc.Prelude.{
  ℕ, Bool, true, [], ◌∷◌, ◌++◌, none, some, find_last_of, substr_from, Outcome, ok, ◌>>=◌,
  if◌then◌else◌, ◌==◌, ℤ, pos, negsuc, Bytes, length, codes, same_text, value_at, assign, to_string,
}

-- HttpCodeToString
unfoldable pub http_code_to_string : ℤ → Bytes
http_code_to_string (negsuc n) = codes "UnKnown code"
http_code_to_string (pos n) =
    if n == 200
    then codes "OK"
    else if n == 400
    then codes "Bad Request"
    else if n == 403
    then codes "Forbidden"
    else if n == 404
    then codes "Not Found"
    else if n == 500
    then codes "Internal Server Error"
    else codes "UnKnown code"

unfoldable pub set_http_code : ℤ → HttpResponse → HttpResponse
unfolding http_code_to_string
set_http_code code res = record res {
  response_code = code;
  response_info = http_code_to_string code;
}

unfoldable pub set_http_content_type : Bytes → HttpResponse → HttpResponse
set_http_content_type t res = record res {
  response_header = assign (codes "Content-Type") t res.response_header;
}

-- GetContentType, for an extension with its dot.
unfoldable pub get_content_type : Bytes → Bytes
get_content_type extension =
    if same_text extension (codes ".html")
    then codes "text/html;charset=utf-8"
    else if same_text extension (codes ".css")
    then codes "text/css;charset=utf-8"
    else if same_text extension (codes ".js")
    then codes "application/javascript;charset=utf-8"
    else if same_text extension (codes ".jpg")
    then codes "image/jpeg"
    else if same_text extension (codes ".png")
    then codes "image/png"
    else if same_text extension (codes ".gif")
    then codes "image/gif"
    else if same_text extension (codes ".json")
    then codes "application/json;charset=utf-8"
    else if same_text extension (codes ".xml")
    then codes "application/xml;charset=utf-8"
    else codes "application/octet-stream"

-- The text behind the last dot, with the dot; a path without one has no extension.
unfoldable pub extension_of : Bytes → Outcome Bytes
extension_of filepath = elim (find_last_of (46 ∷ []) filepath) [
  | none ↦ ok []
  | some i ↦ substr_from filepath i
]

unfoldable pub set_http_content_type_for_file : Bytes → HttpResponse → Outcome HttpResponse
unfolding extension_of get_content_type set_http_content_type
set_http_content_type_for_file filepath res =
    extension_of filepath >>= λ e. ok (set_http_content_type (get_content_type e) res)

unfoldable pub set_http_body : Bytes → HttpResponse → HttpResponse
set_http_body body res = record res {
  response_body = body;
  response_header = assign (codes "Content-Length") (to_string (length body)) res.response_header;
}

-- Both maps get the key: the one of the request, where it was not there, with an empty text.
unfoldable pub set_comm_param : HttpRequest → HttpResponse → HttpRequest × HttpResponse
set_comm_param req res =
    let v = value_at (codes "Connection") req.request_header in
    (
      record req { request_header = assign (codes "Connection") v req.request_header },
      record res {
        response_version = req.request_version;
        response_header = assign (codes "Connection") v res.response_header;
      },
    )

-- default_html_template with its two texts.
abbrev pub html : Bytes → Bytes → Bytes
html title text =
    codes "<html><body><h1>"
    ++ (title ++ (codes "</h1><p>" ++ (text ++ codes "</p></body></html>")))

unfoldable pub handle_not_found : HttpResponse → HttpResponse
unfolding set_http_code set_http_content_type set_http_body http_code_to_string
handle_not_found res =
    let body = html (to_string 404) (http_code_to_string (pos 404)) in
    set_http_body body
      (set_http_content_type (codes "text/html;charset=utf-8") (set_http_code (pos 404) res))

-- Handle: the response, and is_close of the servlet.
unfoldable pub handle :
    (HttpRequest → HttpResponse → HttpResponse)
    → (HttpRequest → HttpResponse → HttpResponse)
    → HttpRequest
    → HttpResponse
    → Bool
    → HttpResponse × Bool
handle handle_get handle_post req res is_close =
    let is_close' = if same_text req.request_version (codes "HTTP/1.0") then true else is_close in
    elim req.request_method [
      | get ↦ (handle_get req res, is_close')
      | post ↦ (handle_post req res, is_close')
    ]
