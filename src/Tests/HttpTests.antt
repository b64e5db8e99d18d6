-- ===== src/Tests/HttpTests.antt =====
-- Requests as bytes.
use tirpc.Buffer.{TcpBuffer}
use tirpc.Buffer.Contents.{between, valid}
use tirpc.Http.{
  get, post, crlf, crlf_double, content_length, gen_data_ptr, decode, atoi, atoi_sign, atoi_digits,
  response_text, to_http_string,
}
use tirpc.Http.Line.{request_line, IsPath}
use tirpc.Http.Request.{IsHeader, Leaves, request_of, decode-Leaves}
use tirpc.Http.Lines.{lone, decode_throws}
use tirpc.StringUtil.{
  split_str_to_vector, with_end, ending, split_loop, split_at, split_str_to_map, put_pairs,
  put_pair,
}
use tirpc.StringUtil.Splitting.{split_str_to_vector-pieces}
use tirpc.StringUtil.Lines.{split_str_to_vector_throws}
use tirpc.Prelude.{
  false, ◌≡◌, refl, [], ◌∷◌, ◌++◌, ok, throws, Bytes, Map, pos, arith, codes, length, find,
  starts_with, find_first_of, substr, value_at, assign, to_string, digits,
}

abbrev held : Bytes → TcpBuffer
held xs = between 0 (length xs) xs

abbrev block : Bytes
block = codes "Content-Length: 2"

abbrev headers : Map
headers = (content_length, codes " 2") ∷ []

abbrev path : Bytes
path = codes "/a"

path-IsPath : IsPath path
unfolding find starts_with
path-IsPath = record {
  no_blank = omega arith;
  no_query = omega arith;
  no_return = omega arith;
  no_scheme = refl;
}

block-IsHeader : IsHeader block headers 2
unfolding split_str_to_map split_str_to_vector with_end ending split_loop split_at find_first_of
    substr put_pairs put_pair value_at assign atoi atoi_sign atoi_digits
block-IsHeader = record { long = omega arith; not_end = refl; pairs = refl; size = refl }

abbrev whole : Bytes
whole = request_line post path ++ (crlf ++ (block ++ (crlf_double ++ codes "xyz")))

decode-Leaves_example :
    Leaves
      (decode (held whole) (gen_data_ptr get))
      (request_of post path headers 2 (codes "xyz"))
      (codes "z")
unfolding find starts_with
decode-Leaves_example =
    decode-Leaves (held whole) path block (codes "xyz") post get headers 2
      (valid 0 _ _ (omega arith) (omega arith)) path-IsPath block-IsHeader (omega arith) refl refl

abbrev bad : Bytes
bad = request_line get path ++ (crlf ++ (lone 97 (98 ∷ 99 ∷ []) ++ (crlf_double ++ [])))

decode_throws_example : decode (held bad) (gen_data_ptr get) ≡ throws
decode_throws_example =
    decode_throws (held bad) path 97 (98 ∷ 99 ∷ []) [] get get
      (valid 0 _ _ (omega arith) (omega arith)) path-IsPath (omega arith) (omega arith)
      (omega arith) refl

split_str_to_vector-pieces_example :
    split_str_to_vector (codes "&a=1&&b") (38 ∷ []) ≡ ok (codes "a=1" ∷ codes "b" ∷ [])
split_str_to_vector-pieces_example = split_str_to_vector-pieces 38 (codes "&a=1&&b")

split_str_to_vector_throws_example :
    split_str_to_vector (codes "ab" ++ (10 ∷ [])) (13 ∷ 10 ∷ []) ≡ throws
split_str_to_vector_throws_example =
    split_str_to_vector_throws 97 (98 ∷ []) (omega arith) (omega arith)

prints :
    response_text (record {
      response_version = codes "HTTP/1.0";
      response_code = pos 404;
      response_info = codes "Not Found";
      response_header = (codes "A", codes "b") ∷ [];
      response_body = codes "x";
      encode_succ = false;
    })
    ≡ codes "HTTP/1.0 404 Not Found" ++ (crlf ++ (codes "A:b" ++ (crlf_double ++ codes "x")))
unfolding response_text to_http_string to_string digits
prints = refl
