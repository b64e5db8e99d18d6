-- ===== src/Rpc/Codec/Malformed.antt =====
-- What Decode does with packages that no Encode wrote.
use tirpc.Buffer.{TcpBuffer}
use tirpc.Buffer.Contents.{IsValid, contents}
use tirpc.Prelude.{
  ℕ, ap, ◌+◌, ◌-◌, ◌<◌, ◌≡◌, ◌∙◌, ◌∷◌, ◌++◌, arith, lt→leb, lt→ltb, ℤ, leb, inl, inr, pos, ok,
  fault, throws, Bytes, length, length-append, append_assoc, ◌>>=◌, slice, sub_ℕ-pos, Bool-cases,
  take, drop, length-take, length-drop,
}
use tirpc.Rpc.Codec.{copy_c_str, decode, decode_fields, decode_pb_data, pb_end}
use tirpc.Rpc.Codec.Fields.{IsHeader, header_of, header_read, decode_fields-at}
use tirpc.Rpc.Codec.Frame.{opening, frame_of, frame_of-append, decode-AtFrame}
use tirpc.Rpc.Codec.Pieces.{regroup, get_int32-at}
use tirpc.Rpc.Codec.RoundTrip.{length-header_of, header_of-append}
use tirpc.Rpc.Data.{TinyPbStruct}
use tirpc.Rpc.NetByte.{put_int32, length-put_int32}

-- A length above the size of the array overruns it, wherever the bytes come from.
copy_c_str-long :
    (cap : ℕ) (v : Bytes) (o n : ℕ) → cap < n → copy_c_str cap v (pos o) (pos n) ≡ fault
unfolding copy_c_str slice
copy_c_str-long cap v o n h = elim (Bool-cases (leb (o + n) (length v))) [
  | inl inside ↦ rw inside (
      rw (
        lt→leb (length (take n (drop o v))) cap
          (ground (arith, length-take n (drop o v), length-drop o v))))
  | inr outside ↦ rw outside
]

decode_fields-long_seq :
    (v front head more : Bytes) (o end k m : ℕ) (d : TinyPbStruct)
    → v ≡ front ++ (head ++ (put_int32 (pos m) ++ more))
    → o ≡ length front
    → length head ≡ 5
    → o + 5 < end
    → 50 < m
    → m < 2_147_483_648
    → decode_fields v (record { start_index = pos o; end_index = pos end; pk_len = pos k }) d
      ≡ fault
unfolding decode_fields
decode_fields-long_seq v front head more o end k m d p h five below long small =
    rw (lt→leb end (o + 1 + 4) (omega arith)) (
      rw
        (get_int32-at v (front ++ head) more (pos m) (o + 1 + 4) (regroup front head _ p)
          (omega (arith, length-append front head)) (lt→ltb m 2_147_483_648 small))
        (rw (lt→leb m 0 (omega arith)) (rw (copy_c_str-long 50 v (o + 1 + 4 + 4) m long))))

-- A package whose msg_req_len is above 50 makes Decode copy past the end of its array `msg_req`.
pub decode-long_seq :
    (b : TcpBuffer) (m : ℕ) (more rest : Bytes) (d : TinyPbStruct)
    → IsValid b
    → length b.buffer < 2_147_483_648
    → contents b ≡ frame_of (put_int32 (pos m) ++ more) rest
    → 50 < m
    → m < 2_147_483_648
    → decode b d ≡ fault
decode-long_seq b m more rest d v small c long fits =
    let body = put_int32 (pos m) ++ more in
    let at = decode-AtFrame b body rest d v small c in
    at.decodes
    ∙ ap (λ x. x >>= λ d'. ok (at.after, d'))
        (decode_fields-long_seq b.buffer at.front (opening (length body + 6))
          (more ++ (pb_end ∷ (rest ++ at.back))) at.start (at.start + length body + 5)
          (length body + 6) m d
          (at.splits
            ∙ ap (λ x. at.front ++ x) (frame_of-append body rest at.back ∙ simp append_assoc))
          at.start_is (omega (arith, length-put_int32 (pos (length body + 6))))
          (omega (arith, length-append (put_int32 (pos m)) more, length-put_int32 (pos m))) long
          fits)

decode_pb_data-short :
    (v : Bytes) (o end k m s e t : ℕ) (d : TinyPbStruct)
    → o < end
    → t < 4
    → k ≡ 22 + t + s + m + e
    → decode_pb_data v (pos end) (pos o) (record d {
      pk_len = pos k;
      msg_req_len = pos m;
      service_name_len = pos s;
      err_info_len = pos e;
    })
      ≡ throws
unfolding decode_pb_data
decode_pb_data-short v o end k m s e t d below short sum = rw (lt→leb end o below) (
    rw (sub_ℕ-pos k s (k - s) (omega arith)) (
      rw (sub_ℕ-pos (k - s) m (k - s - m) (omega arith)) (
        rw (sub_ℕ-pos (k - s - m) e (k - s - m - e) (omega arith)) (
          rw (sub_ℕ-pos (k - s - m - e) 2 (k - s - m - e - 2) (omega arith))
            (rw (lt→leb 24 (k - s - m - e - 2) (omega arith)))))))

-- A package that ends one to three bytes behind its err_info, with no room for the check number,
-- makes Decode ask for a string of negative length, which throws.
decode-short_tail :
    (b : TcpBuffer) (seq name : Bytes) (code : ℤ) (info tail rest : Bytes) (d : TinyPbStruct)
    → IsValid b
    → length b.buffer < 2_147_483_648
    → IsHeader seq name code info
    → contents b ≡ frame_of (header_of seq name code info tail) rest
    → 0 < length tail
    → length tail < 4
    → decode b d ≡ throws
decode-short_tail b seq name code info tail rest d v small s c some_tail short =
    let body = header_of seq name code info tail in
    let k = length body + 6 in
    let at = decode-AtFrame b body rest d v small c in
    let size = length-header_of seq name code info tail in
    let split =
      at.splits
      ∙ ap (λ x. at.front ++ x)
          (frame_of-append body rest at.back
            ∙ ap (λ x. opening k ++ x)
                (header_of-append seq name code info tail (pb_end ∷ (rest ++ at.back)))) in
    at.decodes
    ∙ ap (λ x. x >>= λ d'. ok (at.after, d'))
        (decode_fields-at b.buffer at.front (opening k) seq name code info
            (tail ++ (pb_end ∷ (rest ++ at.back))) at.start (at.start + length body + 5) k d split
            at.start_is (omega (arith, length-put_int32 (pos k))) s (omega arith) (omega arith)
          ∙ decode_pb_data-short b.buffer
              (at.start + 1 + 4 + 4 + length seq + 4 + length name + 4 + 4 + length info)
              (at.start + length body + 5) k (length seq) (length name) (length info) (length tail)
              (header_read k seq name code info d) (omega arith) short (omega arith))
