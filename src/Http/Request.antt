-- ===== src/Http/Request.antt =====
-- Whole requests.
use tirpc.Prelude.{
  ℕ, zero, suc, ◌+◌, ◌-◌, ◌≤◌, ◌<◌, ◌≡◌, ◌≢◌, refl, sym, ap, ◌∙◌, true, false, [], ◌∷◌, ◌++◌, some,
  if◌then◌else◌, ◌==◌, ==_iff, le→ltb, pos, ◌-ℤ◌, ltb_ℤ, Bytes, Outcome, ok, arith, length, take,
  drop, length-append, length-take, append_assoc, same_text, find, Map, value_at, assign, drop-drop,
  take-append-drop, drop-append, sub_ℕ-pos, Bool-cases, inl, inr,
}
use tirpc.Buffer.{TcpBuffer}
use tirpc.Buffer.Contents.{IsValid, contents}
use tirpc.Buffer.Reading.{recycle_read-Yields, get_buffer_string-contents}
use tirpc.Http.{
  HttpMethod, get, post, HttpRequest, gen_data_ptr, crlf, crlf_double, parse_http_request_header,
  parse_http_request_content, atoi, content_length, finish, decode_content, decode_body,
  decode_header, decode_line, decode,
}
use tirpc.Http.Line.{word, request_line, version, IsPath, parse_http_request_line-path}
use tirpc.StringUtil.{is_blank, split_str_to_map}
use tirpc.StringUtil.Searches.{Without, find_crlf, substr-at, substr_from-at}

-- Decode reports success for a buffer that holds one line with its end and nothing else: it has
-- parsed nothing and leaves the buffer as it is.
pub decode_early :
    (line : Bytes) (b : TcpBuffer) (r : HttpRequest)
    → IsValid b
    → contents b ≡ line ++ crlf
    → Without 13 line
    → decode b r ≡ ok (b, record r { decode_succ = true })
unfolding decode decode_line
decode_early line b r v e w =
    let at : find crlf (line ++ crlf) ≡ some (length line) = find_crlf line [] w in
    let here : (length line == (length (line ++ crlf) - 2)) ≡ true =
      (==_iff _ _).1 (omega (arith, length-append line crlf)) in
    rw (get_buffer_string-contents b v) (rw e (rw (at, decode_line) (rw here refl)))

-- A header block with the numbers that the request needs.
pub record IsHeader (block : Bytes) (m : Map) (n : ℕ) : Type 0 where
  pub long : 4 ≤ length block
  pub not_end : same_text block crlf_double ≡ false
  pub pairs : split_str_to_map block crlf (58 ∷ []) [] ≡ ok m
  pub size : atoi (value_at content_length m) ≡ ok (pos n)

-- How many bytes of the body a request takes, and what it is given of them.
abbrev pub taken : HttpMethod → ℕ → ℕ
taken get n = 0
taken post n = n

abbrev pub body_of : HttpMethod → ℕ → Bytes → Bytes → Bytes
body_of get n rest old = old
body_of post n rest old = if n == 0 then old else take n rest

finish-Yields :
    (b : TcpBuffer) (n : ℕ) (r : HttpRequest) (rest : Bytes)
    → IsValid b
    → n ≤ length (contents b)
    → drop n (contents b) ≡ rest
    → (b' : TcpBuffer) × (finish b (pos n) r ≡ ok (b', record r { decode_succ = true }))
      × IsValid b'
      × (contents b' ≡ rest)
unfolding finish
finish-Yields b n r rest v h e =
    let (b', e', v', c) = recycle_read-Yields n b v h in (b', rw e' refl, v', c ∙ e)

-- What the whole call leaves: the request, and the bytes behind it in a valid buffer.
abbrev pub Leaves : Outcome (TcpBuffer × HttpRequest) → HttpRequest → Bytes → Type 0
Leaves m r rest = (b' : TcpBuffer) × (m ≡ ok (b', r)) × IsValid b' × (contents b' ≡ rest)

not_blank : (n : ℕ) (rest : Bytes) → 0 < n → n ≤ length rest → is_blank (take n rest) ≡ false
not_blank zero rest h l = (let f : ⊥ = omega arith in elim f [ ])
not_blank (suc n) [] h l = (let f : ⊥ = omega arith in elim f [ ])
not_blank (suc n) (x ∷ rest) h l = refl

length-take_le : (n : ℕ) (xs : Bytes) → n ≤ length xs → length (take n xs) ≡ n
length-take_le n xs h = omega (arith, length-take n xs)

split_front : (n : ℕ) (rest : Bytes) → n ≤ length rest → rest ≡ [] ++ (take n rest ++ drop n rest)
split_front n rest l = sym (take-append-drop n rest)

module _ (b : TcpBuffer) (pre rest : Bytes) (r : HttpRequest) (n : ℕ) (v : IsValid b)
    (e : contents b ≡ pre ++ rest) (l : n ≤ length rest) where
  -- The rest of the contents behind `k` more bytes, which `i` counts from the front.
  behind :
      (k i : ℕ)
      → i ≡ length pre + k
      → k ≤ length rest
      → (i ≤ length (contents b)) × (drop i (contents b) ≡ drop k rest)
  behind k i f h =
      let size : length (contents b) ≡ length pre + length rest =
        ap length e ∙ length-append pre rest in
      (
        omega (arith, size),
        ap (drop i) e
            ∙ sym (drop-drop k (length pre) i (pre ++ rest) f)
            ∙ ap (drop k) (drop-append (length pre) pre rest refl),
      )

  enough : ltb_ℤ (pos (length (contents b)) -ℤ pos (length pre)) (pos n) ≡ false
  enough =
      let size : length (contents b) ≡ length pre + length rest =
        ap length e ∙ length-append pre rest in
      rw (sub_ℕ-pos (length (contents b)) (length pre) (length rest) size)
        (le→ltb (length rest) n l)

  decode_content-Leaves :
      (h : HttpMethod)
      → Leaves
          (decode_content b
            (length (contents b))
            (length pre)
            rest
            (record r { request_method = h })
            (pos n))
          (record r {
            request_method = h;
            request_body = body_of h n rest r.request_body;
            decode_succ = true;
          })
          (drop (taken h n) rest)
  unfolding decode_content parse_http_request_content
  decode_content-Leaves get =
      let (room, same) = behind 0 (length pre) (omega arith) (omega arith) in
      rw enough (finish-Yields b (length pre) (record r { request_method = get }) rest v room same)
  decode_content-Leaves post = elim (Bool-cases (n == 0)) [
    | inl z ↦
        let none_left : drop n rest ≡ rest = ap (λ k. drop k rest) ((==_iff n 0).0 z) in
        let (room, same) = behind 0 (length pre) (omega arith) (omega arith) in
        rw (enough, z)
          (finish-Yields b (length pre) (record r { request_method = post }) (drop n rest) v room
            (same ∙ sym none_left))
    | inr some_left ↦
        let (room, same) = behind n (length pre + n) refl l in
        let r' = record r { request_method = post; request_body = take n rest } in
        let full = not_blank n rest (ground arith) l in
        let at =
          substr-at rest [] (take n rest) (drop n rest) 0 n (split_front n rest l) refl
            (sym (length-take_le n rest l)) in
        rw (enough, some_left)
          (rw at (rw full (finish-Yields b (length pre + n) r' (drop n rest) v room same)))
  ]

pub Without-append : (c : ℕ) (xs ys : Bytes) → Without c xs → Without c ys → Without c (xs ++ ys)
Without-append c [] ys w v = v
Without-append c (x ∷ xs) ys (n, w) v = (n, Without-append c xs ys w v)

line_without : (h : HttpMethod) (path : Bytes) → IsPath path → Without 13 (request_line h path)
line_without h path p =
    Without-append 13 (word h) _ (of_word h)
      (omega arith, Without-append 13 path _ p.no_return (omega arith))
  where
    of_word : (h : HttpMethod) → Without 13 (word h)
    of_word get = omega arith
    of_word post = omega arith

parse_http_request_header-IsHeader :
    (block : Bytes) (m : Map) (n : ℕ) (r : HttpRequest)
    → IsHeader block m n
    → r.request_header ≡ []
    → parse_http_request_header r block ≡ ok (true, record r { request_header = m })
unfolding parse_http_request_header
parse_http_request_header-IsHeader block m n r i e =
    rw (le→ltb (length block) 4 i.long, i.not_end, filled block i.long)
      (rw (same_map ∙ i.pairs) refl)
  where
    filled : (s : Bytes) → 4 ≤ length s → is_blank s ≡ false
    filled [] h = (let f : ⊥ = omega arith in elim f [ ])
    filled (x ∷ s) h = refl

    same_map :
        split_str_to_map block crlf (58 ∷ []) r.request_header
        ≡ split_str_to_map block crlf (58 ∷ []) []
    same_map = ap (split_str_to_map block crlf (58 ∷ [])) e

-- The request that Decode makes of a text.
abbrev pub request_of : HttpMethod → Bytes → Map → ℕ → Bytes → HttpRequest
request_of h path m n rest = record {
  request_method = h;
  request_path = path;
  request_query = [];
  request_version = version;
  request_header = assign content_length (value_at content_length m) m;
  request_body = body_of h n rest [];
  query_maps = [];
  decode_succ = true;
}

decode_body-Leaves :
    (b : TcpBuffer) (pre rest path : Bytes) (h g : HttpMethod) (m : Map) (n i : ℕ)
    → IsValid b
    → contents b ≡ pre ++ rest
    → n ≤ length rest
    → i ≡ length pre
    → atoi (value_at content_length m) ≡ ok (pos n)
    → Leaves
        (decode_body b (length (contents b)) i rest (record (gen_data_ptr g) {
          request_method = h;
          request_version = version;
          request_path = path;
          request_header = m;
        }))
        (request_of h path m n rest)
        (drop (taken h n) rest)
unfolding decode_body gen_data_ptr
decode_body-Leaves b pre rest path h g m n i v e l k a =
    let r = record (gen_data_ptr g) {
      request_version = version;
      request_path = path;
      request_header = assign content_length (value_at content_length m) m;
    } in
    rw (k, a) (decode_content-Leaves b pre rest r n v e l h)

differs : (a b : ℕ) → a ≢ b → (a == b) ≡ false
differs a b h = ground arith

-- A line that can be parsed is passed, if anything stands behind it.
pub decode_line_passes :
    (b : TcpBuffer) (path tail : Bytes) (h g : HttpMethod)
    → IsPath path
    → 0 < length tail
    → contents b ≡ request_line h path ++ (crlf ++ tail)
    → decode_line b (contents b) (gen_data_ptr g)
      ≡ decode_header b
          (length (contents b))
          (length (request_line h path) + 2)
          tail
          (record (gen_data_ptr g) {
            request_method = h;
            request_version = version;
            request_path = path;
          })
unfolding decode_line
decode_line_passes b path tail h g p l e =
    let line = request_line h path in
    let found : find crlf (contents b) ≡ some (length line) =
      ap (find crlf) e ∙ find_crlf line tail (line_without h path p) in
    let size : length (contents b) ≡ length line + suc (suc (length tail)) =
      ap length e ∙ length-append line (crlf ++ tail) in
    let more : (length line == (length (contents b) - 2)) ≡ false =
      differs _ _ (omega (arith, size)) in
    rw (found, decode_line)
      (rw more (
        rw (substr-at (contents b) [] line (crlf ++ tail) 0 (length line) e refl refl) (
          rw (parse_http_request_line-path h path (gen_data_ptr g) p) (
            rw
              (substr_from-at (contents b) (line ++ crlf) tail (length line + 2)
                (e ∙ sym (append_assoc line crlf tail)) (sym (length-append line crlf)))
              refl))))

module _ (b : TcpBuffer) (path block rest : Bytes) (h g : HttpMethod) (m : Map) (n : ℕ)
    (v : IsValid b) (p : IsPath path) (i : IsHeader block m n) (l : n ≤ length rest)
    (at : find crlf_double (block ++ (crlf_double ++ rest)) ≡ some (length block))
    (e : contents b ≡ request_line h path ++ (crlf ++ (block ++ (crlf_double ++ rest)))) where
  abbrev tail : Bytes
  tail = block ++ (crlf_double ++ rest)

  abbrev front : ℕ
  front = length (request_line h path) + 2

  -- The request behind its line.
  abbrev lined : HttpRequest
  lined = record (gen_data_ptr g) {
    request_method = h;
    request_version = version;
    request_path = path;
  }

  decode_header-Leaves :
      Leaves
        (decode_header b (length (contents b)) front tail lined)
        (request_of h path m n rest)
        (drop (taken h n) rest)
  unfolding decode_header gen_data_ptr
  decode_header-Leaves =
      let pre = request_line h path ++ (crlf ++ (block ++ crlf_double)) in
      let whole : contents b ≡ pre ++ rest =
        e
        ∙ sym (
            append_assoc (request_line h path) (crlf ++ (block ++ crlf_double)) rest
            ∙ ap (λ r. request_line h path ++ (crlf ++ r)) (append_assoc block crlf_double rest)) in
      let header = parse_http_request_header-IsHeader block m n lined i refl in
      rw (at, decode_header)
        (rw (substr-at tail [] block (crlf_double ++ rest) 0 (length block) refl refl refl) (
          rw header (
            rw
              (substr_from-at tail (block ++ crlf_double) rest (length block + 4)
                (sym (append_assoc block crlf_double rest)) (sym (length-append block crlf_double)))
              (decode_body-Leaves b pre rest path h g m n (front + length block + 4) v whole l
                (omega (
                  arith,
                  length-append (request_line h path) (crlf ++ (block ++ crlf_double)),
                  length-append block crlf_double,
                ))
                i.size))))

-- Decode of a valid buffer into a new request. The buffer holds a request line of HTTP/1.1 with GET or
-- POST and a path with no blank, "?", "\r" or "://", a block of at least four bytes whose pairs can be
-- split, and behind it as many bytes as its Content-Length asks for, which is not negative: the result
-- is that request, decode_succ is set, and the buffer is valid and holds what stands behind the
-- request. A GET takes none of the bytes of its body.
pub decode-Leaves :
    (b : TcpBuffer) (path block rest : Bytes) (h g : HttpMethod) (m : Map) (n : ℕ)
    → IsValid b
    → IsPath path
    → IsHeader block m n
    → n ≤ length rest
    → find crlf_double (block ++ (crlf_double ++ rest)) ≡ some (length block)
    → contents b ≡ request_line h path ++ (crlf ++ (block ++ (crlf_double ++ rest)))
    → Leaves (decode b (gen_data_ptr g)) (request_of h path m n rest) (drop (taken h n) rest)
unfolding decode
decode-Leaves b path block rest h g m n v p i l at e =
    let size : 0 < length (block ++ (crlf_double ++ rest)) =
      omega (arith, length-append block (crlf_double ++ rest)) in
    rw (get_buffer_string-contents b v) (
      rw (decode_line_passes b path (block ++ (crlf_double ++ rest)) h g p size e)
        (decode_header-Leaves b path block rest h g m n v p i l at e))
