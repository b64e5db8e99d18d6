-- ===== src/Http/Dispatcher.antt =====
-- net/http/http_dispatcher.cpp. A servlet is a number, under which `is_close` is kept, since several
-- paths may share a servlet; fnmatch, and what a servlet does, are arguments.
pub mod Closing
pub mod Endless
use tirpc.Buffer.{TcpBuffer}
use tirpc.Connection.{Connection, shutdown_connection}
use tirpc.Http.{HttpMethod, HttpRequest, HttpResponse, gen_data_ptr, encode, decode}
use tirpc.Http.Servlet.{set_comm_param, handle_not_found, handle}
use tirpc.MsgReq.{is_empty}
use tirpc.Prelude.{
  ℕ, Bool, true, false, List, [], ◌∷◌, Option, none, some, if◌then◌else◌, ◌==◌, ◌++◌, ℤ, Outcome,
  ok, ◌>>=◌, Bytes, same_text,
}

abbrev pub Servlets : Type 0
Servlets = List (Bytes × ℕ)

pub record HttpDispatcher : Type 0 where
  pub servlets : Servlets
  pub globs : Servlets
  pub is_close : ℕ → Bool

unfoldable pub find_servlet : Bytes → Servlets → Option ℕ
find_servlet path [] = none
find_servlet path ((k, i) ∷ m) =
    let rest = find_servlet path m in if same_text k path then some i else rest

-- RegisterServlet: what is there stays.
unfoldable pub put_servlet : Bytes → ℕ → Servlets → Servlets
put_servlet path i [] = (path, i) ∷ []
put_servlet path i ((k, j) ∷ m) =
    let rest = put_servlet path i m in if same_text k path then (k, j) ∷ m else (k, j) ∷ rest

unfoldable pub register_servlet : Bytes → ℕ → HttpDispatcher → HttpDispatcher
unfolding put_servlet
register_servlet path i s = record s { servlets = put_servlet path i s.servlets }

-- RegisterGlobServlet: the first entry of the pattern goes, and the new one stands last.
unfoldable pub put_glob : Bytes → ℕ → Servlets → Servlets
put_glob path i [] = (path, i) ∷ []
put_glob path i ((k, j) ∷ m) =
    let rest = put_glob path i m in
    if same_text k path then m ++ ((path, i) ∷ []) else (k, j) ∷ rest

unfoldable pub register_glob_servlet : Bytes → ℕ → HttpDispatcher → HttpDispatcher
unfolding put_glob
register_glob_servlet path i s = record s { globs = put_glob path i s.globs }

-- HttpResponse(), whose code is not initialised.
abbrev pub new_response : ℤ → HttpResponse
new_response garbage = record {
  response_version = [];
  response_code = garbage;
  response_info = [];
  response_header = [];
  response_body = [];
  encode_succ = false;
}

-- What GenDataPtr and Decode give for the bytes of a connection.
abbrev pub decode_request : HttpMethod → TcpBuffer → Outcome (HttpRequest × TcpBuffer)
decode_request garbage b = decode b (gen_data_ptr garbage) >>= λ (b', r). ok (r, b')

module _ (fnmatch : Bytes → Bytes → Bool)
    (handle_get handle_post : ℕ → HttpRequest → HttpResponse → HttpResponse) (garbage : ℤ) where
  unfoldable pub find_glob : Bytes → Servlets → Option ℕ
  find_glob path [] = none
  find_glob path ((k, i) ∷ m) =
      let rest = find_glob path m in if fnmatch k path then some i else rest

  unfoldable pub choose : Bytes → HttpDispatcher → Option ℕ
  unfolding find_servlet find_glob
  choose path s = elim (find_servlet path s.servlets) [
    | some i ↦ some i
    | none ↦ find_glob path s.globs
  ]

  -- The chosen servlet, or a new NotFoundHttpServlet, handles the request.
  unfoldable pub serve :
      Option ℕ
      → HttpRequest × HttpResponse
      → HttpDispatcher
      → Connection HttpRequest
      → Outcome (HttpDispatcher × Connection HttpRequest)
  unfolding handle_not_found handle
  serve none (req, res) s conn = encode conn.write_buffer (handle_not_found res) >>= λ (b, r).
      ok (s, record conn { write_buffer = b })
  serve (some i) (req, res) s conn =
      let (res', closes) = handle (handle_get i) (handle_post i) req res (s.is_close i) in
      let s' = record s { is_close = λ j. if j == i then closes else s.is_close j } in
      let conn' = if closes then shutdown_connection conn else conn in
      encode conn'.write_buffer res' >>= λ (b, r). ok (s', record conn' { write_buffer = b })

  unfoldable pub dispatch :
      HttpRequest
      → HttpDispatcher
      → Connection HttpRequest
      → Outcome (HttpDispatcher × Connection HttpRequest)
  unfolding choose serve set_comm_param
  dispatch request s conn =
      if is_empty request.request_path
      then ok (s, conn)
      else serve (choose request.request_path s) (set_comm_param request (new_response garbage)) s
          conn
