-- ===== src/Http/Line.antt =====
-- The request line.
use tirpc.Prelude.{
  ℕ, suc, ◌+◌, ◌-◌, ◌≡◌, refl, sym, ap, ◌∙◌, true, false, [], ◌∷◌, ◌++◌, none, some, ◌==◌, Bytes,
  ok, arith, length, length-append, append_assoc, codes, find, find_last_of,
}
use tirpc.Http.{
  HttpMethod, get, post, HttpRequest, parse_query, parse_url, parse_version, parse_method,
  parse_blanks, parse_http_request_line,
}
use tirpc.StringUtil.Searches.{
  Without, find_first_of-at, find_first_of-none, find_last_of-at, substr-at,
}

abbrev pub word : HttpMethod → Bytes
word get = codes "GET"
word post = codes "POST"

abbrev pub version : Bytes
version = codes "HTTP/1.1"

abbrev pub request_line : HttpMethod → Bytes → Bytes
request_line h path = word h ++ (32 ∷ (path ++ (32 ∷ version)))

-- A path that the line can carry, and that is not the address of a host.
pub record IsPath (path : Bytes) : Type 0 where
  pub no_blank : Without 32 path
  pub no_query : Without 63 path
  pub no_return : Without 13 path
  pub no_scheme : find (codes "://") path ≡ none

parse_url-path :
    (s1 s2 : ℕ) (path : Bytes) (r : HttpRequest)
    → IsPath path
    → parse_url s1 s2 path r ≡ ok (true, record r { request_path = path })
unfolding parse_url parse_query
parse_url-path s1 s2 path r p =
    rw (p.no_scheme, parse_url) (rw (find_first_of-none 63 path p.no_query, parse_query) refl)

parse_version-path :
    (w path : Bytes) (s1 s2 : ℕ) (r : HttpRequest)
    → s1 ≡ length w
    → s2 ≡ length w + 1 + length path
    → IsPath path
    → parse_version s1 s2 (w ++ (32 ∷ (path ++ (32 ∷ version)))) r
      ≡ ok (true, record r { request_version = version; request_path = path })
unfolding parse_version
parse_version-path w path s1 s2 r e e' p =
    let line = w ++ (32 ∷ (path ++ (32 ∷ version))) in
    let l : length line ≡ length w + suc (length path + 9) =
      omega (
        arith,
        length-append w (32 ∷ (path ++ (32 ∷ version))),
        length-append path (32 ∷ version),
      ) in
    let front : line ≡ (w ++ (32 ∷ (path ++ (32 ∷ [])))) ++ (version ++ []) = sym (
      append_assoc w (32 ∷ (path ++ (32 ∷ []))) version
      ∙ ap (λ r. w ++ (32 ∷ r)) (append_assoc path (32 ∷ []) version)) in
    let around : line ≡ (w ++ (32 ∷ [])) ++ (path ++ (32 ∷ version)) =
      sym (append_assoc w (32 ∷ []) (path ++ (32 ∷ version))) in
    rw
      (substr-at line (w ++ (32 ∷ (path ++ (32 ∷ [])))) version [] (s2 + 1) (length line - s2 - 1)
        front
        (omega (arith, length-append w (32 ∷ (path ++ (32 ∷ []))), length-append path (32 ∷ [])))
        (omega (arith, l)))
      (rw
        (substr-at line (w ++ (32 ∷ [])) path (32 ∷ version) (s1 + 1) (s2 - s1 - 1) around
          (omega (arith, length-append w (32 ∷ []))) (omega arith))
        (parse_url-path s1 s2 path (record r { request_version = version }) p))

blanks :
    (h : HttpMethod) (path : Bytes) (r : HttpRequest)
    → IsPath path
    → parse_http_request_line r (request_line h path)
      ≡ parse_method (length (word h)) (length (word h) + 1 + length path) (request_line h path) r
unfolding parse_http_request_line parse_blanks
blanks h path r p =
    let line = request_line h path in
    let second : find_last_of (32 ∷ []) line ≡ some (length (word h) + 1 + length path) =
      ap (find_last_of (32 ∷ [])) (sym (append_assoc (word h) (32 ∷ path) (32 ∷ version)))
      ∙ find_last_of-at 32 (word h ++ (32 ∷ path)) version (no_blank_version)
      ∙ ap some (omega (arith, length-append (word h) (32 ∷ path))) in
    let d : (length (word h) == (length (word h) + 1 + length path)) ≡ false = ground arith in
    rw (find_first_of-at 32 (word h) (path ++ (32 ∷ version)) (no_blank_word h), second) (rw d refl)
  where
    no_blank_version : Without 32 version
    no_blank_version = omega arith

    no_blank_word : (h : HttpMethod) → Without 32 (word h)
    no_blank_word get = omega arith
    no_blank_word post = omega arith

method_read :
    (h : HttpMethod) (path : Bytes) (s2 : ℕ) (r : HttpRequest)
    → parse_method (length (word h)) s2 (request_line h path) r
      ≡ parse_version (length (word h)) s2 (request_line h path) (record r { request_method = h })
unfolding parse_method
method_read get path s2 r =
    rw
      (substr-at (request_line get path) [] (word get) (32 ∷ (path ++ (32 ∷ version))) 0
        (length (word get)) refl refl refl)
      refl
method_read post path s2 r =
    rw
      (substr-at (request_line post path) [] (word post) (32 ∷ (path ++ (32 ∷ version))) 0
        (length (word post)) refl refl refl)
      refl

-- ParseHttpRequestLine reads the method, the path and the version off a line of HTTP/1.1.
pub parse_http_request_line-path :
    (h : HttpMethod) (path : Bytes) (r : HttpRequest)
    → IsPath path
    → parse_http_request_line r (request_line h path)
      ≡ ok (true, record r { request_method = h; request_version = version; request_path = path })
parse_http_request_line-path h path r p =
    blanks h path r p
    ∙ method_read h path _ r
    ∙ parse_version-path (word h) path (length (word h)) _ (record r { request_method = h }) refl
        refl p
