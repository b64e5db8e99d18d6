-- ===== src/Http.antt =====
-- net/http/http_codec.cpp: requests in, responses out. The checks for null pointers are left out.
pub mod Line
pub mod Request
pub mod Lines
pub mod Servlet
pub mod Dispatcher
use tirpc.Buffer.{TcpBuffer, write_to_buffer, recycle_read, get_buffer_string}
use tirpc.StringUtil.{is_blank, split_str_to_map}
use tirpc.Prelude.{
  ℕ, zero, suc, ◌+◌, ◌-◌, ◌*◌, ◌≤◌, Bool, true, false, not, ◌&&◌, ◌||◌, List, [], ◌∷◌, ◌++◌, map,
  Option, none, some, if◌then◌else◌, ltb, leb, ◌==◌, ℤ, pos, negsuc, neg, ◌+ℤ◌, ◌-ℤ◌, ltb_ℤ,
  in_int32, Bytes, Outcome, ok, fault, throws, ◌>>=◌, length, codes, same_text, find, find_first_of,
  find_last_of, substr, substr_from, to_upper, Map, value_at, assign, to_string,
}

pub data HttpMethod : Type 0 where
  get post : HttpMethod

pub record HttpRequest : Type 0 where
  pub request_method : HttpMethod
  pub request_path : Bytes
  pub request_query : Bytes
  pub request_version : Bytes
  pub request_header : Map
  pub request_body : Bytes
  pub query_maps : Map
  pub decode_succ : Bool

pub record HttpResponse : Type 0 where
  pub response_version : Bytes
  pub response_code : ℤ
  pub response_info : Bytes
  pub response_header : Map
  pub response_body : Bytes
  pub encode_succ : Bool

-- GenDataPtr: the method of a new request is not initialised.
unfoldable pub gen_data_ptr : HttpMethod → HttpRequest
gen_data_ptr garbage = record {
  request_method = garbage;
  request_path = [];
  request_query = [];
  request_version = [];
  request_header = [];
  request_body = [];
  query_maps = [];
  decode_succ = false;
}

abbrev pub crlf : Bytes
crlf = 13 ∷ 10 ∷ []

abbrev pub crlf_double : Bytes
crlf_double = 13 ∷ 10 ∷ 13 ∷ 10 ∷ []

unfoldable pub to_http_string : Map → Bytes
to_http_string [] = []
to_http_string ((k, v) ∷ m) = k ++ ((58 ∷ []) ++ (v ++ (crlf ++ to_http_string m)))

-- std::to_string(int)
abbrev pub int_to_string : ℤ → Bytes
int_to_string (pos n) = to_string n
int_to_string (negsuc n) = 45 ∷ to_string (suc n)

unfoldable pub response_text : HttpResponse → Bytes
unfolding to_http_string
response_text r =
    r.response_version
    ++ ((32 ∷ [])
        ++ (int_to_string r.response_code
            ++ ((32 ∷ [])
                ++ (r.response_info
                    ++ (crlf ++ (to_http_string r.response_header ++ (crlf ++ r.response_body)))))))

unfoldable pub encode : TcpBuffer → HttpResponse → Outcome (TcpBuffer × HttpResponse)
unfolding response_text
encode buf response = do
  buf' ← write_to_buffer (response_text response) buf
  ok (buf', record response { encode_succ = true })

-- What a parsing function returns, with the request that it has filled in so far.
abbrev pub Parsed : Type 0
Parsed = Outcome (Bool × HttpRequest)

-- The end of ParseHttpRequestLine: the path and the query.
unfoldable pub parse_query : Bytes → HttpRequest → Parsed
parse_query url r = elim (find_first_of (63 ∷ []) url) [
  | none ↦ ok (true, record r { request_path = url })
  | some j ↦ substr url 0 j >>= λ path. substr url (j + 1) (length url - j - 1) >>= λ query.
      split_str_to_map query (38 ∷ []) (61 ∷ []) r.query_maps >>= λ m.
      ok (true, record r { request_path = path; request_query = query; query_maps = m })
]

-- The same behind a scheme: the host is dropped, and so is the slash behind it.
unfoldable pub parse_absolute : Bytes → HttpRequest → Parsed
unfolding parse_query
parse_absolute url r = elim (find_first_of (47 ∷ []) url) [
  | none ↦ ok (true, r)
  | some j ↦
      if j == length url - 1
      then ok (true, r)
      else substr url (j + 1) (length url - j - 1) >>= λ url'. parse_query url' r
]

unfoldable pub parse_url : ℕ → ℕ → Bytes → HttpRequest → Parsed
unfolding parse_query parse_absolute
parse_url s1 s2 url r = elim (find (codes "://") url) [
  | none ↦ parse_query url r
  | some j ↦
      if leb (length url) (j + 3)
      then ok (false, r)
      else substr url (j + 3) (s2 - s1 - j - 4) >>= λ url'. parse_absolute url' r
]

unfoldable pub parse_version : ℕ → ℕ → Bytes → HttpRequest → Parsed
unfolding parse_url
parse_version s1 s2 tmp r = substr tmp (s2 + 1) (length tmp - s2 - 1) >>= λ v.
    let version = map to_upper v in
    if not (same_text version (codes "HTTP/1.1")) && not (same_text version (codes "HTTP/1.0"))
    then ok (false, r)
    else substr tmp (s1 + 1) (s2 - s1 - 1) >>= λ url.
        parse_url s1 s2 url (record r { request_version = version })

unfoldable pub parse_method : ℕ → ℕ → Bytes → HttpRequest → Parsed
unfolding parse_version
parse_method s1 s2 tmp r = substr tmp 0 s1 >>= λ m.
    let method = map to_upper m in
    if same_text method (codes "GET")
    then parse_version s1 s2 tmp (record r { request_method = get })
    else if same_text method (codes "POST")
    then parse_version s1 s2 tmp (record r { request_method = post })
    else ok (false, r)

-- Both places of a blank, if there are any.
unfoldable pub parse_blanks : Option ℕ → Option ℕ → Bytes → HttpRequest → Parsed
unfolding parse_method
parse_blanks (some s1) (some s2) tmp r =
    if s1 == s2 then ok (false, r) else parse_method s1 s2 tmp r
parse_blanks (some s1) none tmp r = ok (false, r)
parse_blanks none s2 tmp r = ok (false, r)

unfoldable pub parse_http_request_line : HttpRequest → Bytes → Parsed
unfolding parse_blanks
parse_http_request_line r tmp =
    parse_blanks (find_first_of (32 ∷ []) tmp) (find_last_of (32 ∷ []) tmp) tmp r

unfoldable pub parse_http_request_header : HttpRequest → Bytes → Parsed
parse_http_request_header r str =
    if is_blank str || ltb (length str) 4 || same_text str crlf_double
    then ok (true, r)
    else split_str_to_map str crlf (58 ∷ []) r.request_header >>= λ m.
        ok (true, record r { request_header = m })

unfoldable pub parse_http_request_content : HttpRequest → Bytes → Parsed
parse_http_request_content r str =
    if is_blank str then ok (true, r) else ok (true, record r { request_body = str })

-- std::atoi: white space, a sign, digits. A value that is no `int` is undefined behaviour.
unfoldable pub atoi_digits : ℕ → Bytes → ℕ
atoi_digits acc [] = acc
atoi_digits acc (c ∷ s) =
    let rest = atoi_digits (acc * 10 + (c - 48)) s in if leb 48 c && leb c 57 then rest else acc

unfoldable pub atoi_sign : Bytes → ℤ
unfolding atoi_digits
atoi_sign [] = pos 0
atoi_sign (c ∷ s) =
    if c == 45
    then neg (pos (atoi_digits 0 s))
    else if c == 43
    then pos (atoi_digits 0 s)
    else pos (atoi_digits 0 (c ∷ s))

abbrev pub trim : Bytes → Bytes
trim [] = []
trim (c ∷ s) = if c == 32 || (leb 9 c && leb c 13) then trim s else c ∷ s

unfoldable pub atoi : Bytes → Outcome ℤ
unfolding atoi_sign
atoi s = let n = atoi_sign (trim s) in if in_int32 n then ok n else fault

-- The `len` of substr(0, contentLen), where a negative one is larger than any text.
abbrev pub up_to : ℤ → Bytes → ℕ
up_to (pos n) s = n
up_to (negsuc n) s = length s

abbrev pub is_post : HttpMethod → Bool
is_post get = false
is_post post = true

abbrev pub is_zero : ℤ → Bool
is_zero (pos n) = n == 0
is_zero (negsuc n) = false

abbrev pub content_length : Bytes
content_length = codes "Content-Length"

-- The end of Decode.
unfoldable pub finish : TcpBuffer → ℤ → HttpRequest → Outcome (TcpBuffer × HttpRequest)
finish buf read_size r =
    recycle_read read_size buf >>= λ buf'. ok (buf', record r { decode_succ = true })

-- Decode goes on only with a part that was parsed.
abbrev pub on_success :
    TcpBuffer
    → (HttpRequest → Outcome (TcpBuffer × HttpRequest))
    → Parsed
    → Outcome (TcpBuffer × HttpRequest)
on_success buf next p = p >>= λ (b, r). if b then next r else ok (buf, r)

unfoldable pub decode_content :
    TcpBuffer → ℕ → ℕ → Bytes → HttpRequest → ℤ → Outcome (TcpBuffer × HttpRequest)
unfolding finish parse_http_request_content
decode_content buf total read_size tmp r n =
    if ltb_ℤ (pos total -ℤ pos read_size) n
    then ok (buf, r)
    else if is_post r.request_method && not (is_zero n)
    then (substr tmp 0 (up_to n tmp) >>= λ content.
        on_success buf (finish buf (pos read_size +ℤ n)) (parse_http_request_content r content))
    else finish buf (pos read_size) r

-- maps_["Content-Length"] puts the key in if it is not there.
unfoldable pub decode_body :
    TcpBuffer → ℕ → ℕ → Bytes → HttpRequest → Outcome (TcpBuffer × HttpRequest)
unfolding atoi decode_content
decode_body buf total read_size tmp r =
    let v = value_at content_length r.request_header in
    let r' = record r { request_header = assign content_length v r.request_header } in
    atoi v >>= λ n. decode_content buf total read_size tmp r' n

unfoldable pub decode_header :
    TcpBuffer → ℕ → ℕ → Bytes → HttpRequest → Outcome (TcpBuffer × HttpRequest)
unfolding parse_http_request_header decode_body
decode_header buf total read_size tmp r = elim (find crlf_double tmp) [
  | none ↦ ok (buf, r)
  | some j ↦ substr tmp 0 j >>= λ h.
      on_success buf
        (λ r'.
          substr_from tmp (j + 4) >>= λ tmp'. decode_body buf total (read_size + j + 4) tmp' r')
        (parse_http_request_header r h)
]

unfoldable pub decode_line : TcpBuffer → Bytes → HttpRequest → Outcome (TcpBuffer × HttpRequest)
unfolding parse_http_request_line decode_header
decode_line buf strs r = elim (find crlf strs) [
  | none ↦ ok (buf, r)
  | some i ↦
      if i == length strs - 2
      then ok (buf, record r { decode_succ = true })
      else substr strs 0 i >>= λ line.
          on_success buf
            (λ r'.
              substr_from strs (i + 2) >>= λ tmp. decode_header buf (length strs) (i + 2) tmp r')
            (parse_http_request_line r line)
]

-- HttpCodeC::Decode. Its loop never takes a second round: each part is parsed, or the call returns.
unfoldable pub decode : TcpBuffer → HttpRequest → Outcome (TcpBuffer × HttpRequest)
unfolding decode_line
decode buf r = get_buffer_string buf >>= λ strs. decode_line buf strs r
