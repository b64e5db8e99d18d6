-- ===== src/Http/Lines.antt =====
-- A header line that ends with "\n" alone.
use tirpc.Prelude.{
  ℕ, ◌+◌, ◌≤◌, ◌≡◌, ◌≢◌, refl, ap, false, [], ◌∷◌, ◌++◌, some, ◌==◌, le→ltb, Bytes, throws, arith,
  length, length-append, next, find, starts_with,
}
use tirpc.Buffer.{TcpBuffer}
use tirpc.Buffer.Contents.{IsValid, contents}
use tirpc.Buffer.Reading.{get_buffer_string-contents}
use tirpc.Http.{
  HttpMethod, HttpRequest, gen_data_ptr, crlf, crlf_double, parse_http_request_header,
  decode_header, decode,
}
use tirpc.Http.Line.{request_line, IsPath}
use tirpc.Http.Request.{decode_line_passes, Without-append}
use tirpc.StringUtil.{split_str_to_map}
use tirpc.StringUtil.Lines.{split_str_to_vector_throws}
use tirpc.StringUtil.Searches.{Without, substr-at}

other_byte : (x : ℕ) → x ≢ 13 → (13 == x) ≡ false
other_byte x h = ground arith

find-crlf_double :
    (xs ys : Bytes)
    → Without 13 xs
    → find crlf_double (xs ++ (crlf_double ++ ys)) ≡ some (length xs)
unfolding find starts_with
find-crlf_double [] ys w = refl
find-crlf_double (x ∷ xs) ys (h, w) = rw (other_byte x h) (ap next (find-crlf_double xs ys w))

-- A header block of one line, with "\n" behind it.
abbrev pub lone : ℕ → Bytes → Bytes
lone x xs = x ∷ (xs ++ (10 ∷ []))

lone_block :
    (x : ℕ) (xs : Bytes) (r : HttpRequest)
    → Without 13 (x ∷ xs)
    → Without 10 (x ∷ xs)
    → 2 ≤ length xs
    → parse_http_request_header r (lone x xs) ≡ throws
unfolding parse_http_request_header split_str_to_map
lone_block x xs r (n, w) v l =
    let size : length (lone x xs) ≡ length xs + 2 = omega (arith, length-append xs (10 ∷ [])) in
    rw (le→ltb (length (lone x xs)) 4 (omega (arith, size)), differs x n)
      (rw (split_str_to_vector_throws x xs (n, w) v) refl)
  where
    differs : (x : ℕ) → x ≢ 13 → (x == 13) ≡ false
    differs x h = ground arith

-- Decode of a valid buffer into a new request, where the line is well formed and the header block is
-- one line of at least three bytes, without a line end in it, that ends with "\n", throws
-- std::out_of_range.
pub decode_throws :
    (b : TcpBuffer) (path : Bytes) (x : ℕ) (xs rest : Bytes) (h g : HttpMethod)
    → IsValid b
    → IsPath path
    → Without 13 (x ∷ xs)
    → Without 10 (x ∷ xs)
    → 2 ≤ length xs
    → contents b ≡ request_line h path ++ (crlf ++ (lone x xs ++ (crlf_double ++ rest)))
    → decode b (gen_data_ptr g) ≡ throws
unfolding decode decode_header
decode_throws b path x xs rest h g v p w u l e =
    let tail = lone x xs ++ (crlf_double ++ rest) in
    let clean : Without 13 (lone x xs) = Without-append 13 (x ∷ xs) (10 ∷ []) w (omega arith) in
    rw (get_buffer_string-contents b v) (
      rw
        (decode_line_passes b path tail h g p
          (omega (arith, length-append (lone x xs) (crlf_double ++ rest))) e)
        (rw (find-crlf_double (lone x xs) rest clean, decode_header)
          (rw
            (substr-at tail [] (lone x xs) (crlf_double ++ rest) 0 (length (lone x xs)) refl refl
              refl)
            (rw (lone_block x xs _ w u l) refl))))
