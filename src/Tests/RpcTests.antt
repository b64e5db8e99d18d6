-- ===== src/Tests/RpcTests.antt =====
-- A request of a client, and packages that no client should send.
use tirpc.Buffer.{TcpBuffer, make, write_to_buffer, resize_buffer}
use tirpc.Buffer.Contents.{between, IsValid, valid, contents}
use tirpc.MsgReq.{MsgReq}
use tirpc.Prelude.{
  ◌≡◌, refl, [], ◌∷◌, ◌++◌, Bytes, ok, fault, pos, negsuc, arith, none, length, replicate, slice,
  overwrite,
}
use tirpc.Rpc.Codec.{encode, encoded, decode, package_of}
use tirpc.Rpc.Codec.Fields.{header_of}
use tirpc.Rpc.Codec.Frame.{frame_of}
use tirpc.Rpc.Codec.Malformed.{decode-long_seq}
use tirpc.Rpc.Codec.RoundTrip.{IsSendable, received, decode-package_of, decode-encode}
use tirpc.Rpc.Data.{TinyPbStruct, blank}
use tirpc.Rpc.NetByte.{put_int32}

-- "7", "S.m", with three bytes of data.
abbrev request : TinyPbStruct
request = record blank {
  msg_seq = b'7' ∷ [];
  service_full_name = b'S' ∷ b'.' ∷ b'm' ∷ [];
  err_code = negsuc 0;
  pb_data = 2 ∷ 0 ∷ 3 ∷ [];
}

request-IsSendable : IsSendable request
request-IsSendable = record {
  header = record {
    seq_ne = omega arith;
    seq_fits = omega arith;
    seq_text = omega arith;
    name_fits = omega arith;
    name_text = omega arith;
    code_fits = refl;
    info_fits = omega arith;
    info_text = tt;
  };
  name_ne = omega arith;
  total_fits = omega arith;
}

abbrev no_numbers : MsgReq
no_numbers = record { msg_req_nu = []; max_msg_req_nu = [] }

abbrev received_buffer : Bytes → TcpBuffer
received_buffer v = between 0 (length v) v

decode-package_of_example :
    (b : TcpBuffer) × (decode (received_buffer (package_of request ++ (9 ∷ []))) blank
      ≡ ok (b, received request blank))
    × IsValid b
    × (contents b ≡ 9 ∷ [])
unfolding package_of put_int32
decode-package_of_example =
    decode-package_of (received_buffer (package_of request ++ (9 ∷ []))) request blank (9 ∷ [])
      (valid 0 34 (package_of request ++ (9 ∷ [])) (omega arith) (omega arith)) (omega arith) refl
      request-IsSendable

-- The vector that Encode leaves, having grown it to one and a half times what it needs.
abbrev encoded_buffer : TcpBuffer
encoded_buffer = between 0 33 (package_of request ++ replicate 16 0)

encode-request :
    encode 20 none no_numbers (make 4) request ≡ ok (encoded_buffer, encoded request, no_numbers)
unfolding encode package_of put_int32 write_to_buffer resize_buffer slice overwrite make
encode-request = refl

decode-encode_example :
    (b : TcpBuffer) × (decode encoded_buffer blank ≡ ok (b, received request blank))
    × (contents b ≡ [])
unfolding make package_of put_int32
decode-encode_example =
    decode-encode 20 none no_numbers no_numbers (make 4) encoded_buffer request (encoded request)
      blank (valid 0 0 _ (omega arith) (omega arith)) refl request-IsSendable encode-request
      (omega arith)

-- msg_req_len is 51.
abbrev long_package : Bytes
long_package = frame_of (put_int32 (pos 51) ++ (1 ∷ [])) []

decode-long_seq_example : decode (received_buffer long_package) blank ≡ fault
unfolding put_int32
decode-long_seq_example =
    decode-long_seq (received_buffer long_package) 51 (1 ∷ []) [] blank
      (valid 0 11 long_package (omega arith) (omega arith)) (omega arith) refl (omega arith)
      (omega arith)

abbrev short_package : Bytes
short_package = frame_of (header_of (b'7' ∷ []) (b'S' ∷ []) (pos 0) [] (1 ∷ [])) []
