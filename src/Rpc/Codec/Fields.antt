-- ===== src/Rpc/Codec/Fields.antt =====
-- Decode's reading of the fields of a package, from the last field to the first.
use tirpc.Prelude.{
  ℕ, ◌+◌, ◌-◌, ◌≤◌, ◌<◌, ◌≡◌, refl, true, false, ◌++◌, arith, in_int32, le→ltb, sub_ℕ-pos, lt→leb,
  lt→ltb, ℤ, pos, ok, Bytes, slice-at, length, length-append,
}
use tirpc.Rpc.Codec.{decode_pb_data, decode_err, decode_service, decode_fields}
use tirpc.Rpc.Codec.Pieces.{NoZero, regroup, get_int32-at, copy_c_str-at}
use tirpc.Rpc.Data.{TinyPbStruct}
use tirpc.Rpc.NetByte.{put_int32, length-put_int32}

pub decode_pb_data-at :
    (v front data_bytes rest : Bytes) (end o k m s e : ℕ) (d : TinyPbStruct)
    → v ≡ front ++ (data_bytes ++ rest)
    → o ≡ length front
    → o < end
    → k ≡ 26 + length data_bytes + s + m + e
    → decode_pb_data v (pos end) (pos o) (record d {
      pk_len = pos k;
      msg_req_len = pos m;
      service_name_len = pos s;
      err_info_len = pos e;
    })
      ≡ ok (record d {
        pk_len = pos k;
        msg_req_len = pos m;
        service_name_len = pos s;
        err_info_len = pos e;
        pb_data = data_bytes;
        decode_succ = true;
      })
unfolding decode_pb_data
decode_pb_data-at v front data_bytes rest end o k m s e d p h below sum = rw (lt→leb end o below) (
    rw (sub_ℕ-pos k s (k - s) (omega arith)) (
      rw (sub_ℕ-pos (k - s) m (k - s - m) (omega arith)) (
        rw (sub_ℕ-pos (k - s - m) e (k - s - m - e) (omega arith)) (
          rw (sub_ℕ-pos (k - s - m - e) 2 (k - s - m - e - 2) (omega arith)) (
            rw (sub_ℕ-pos (k - s - m - e - 2) 24 (length data_bytes) (omega arith))
              (rw (slice-at v front data_bytes rest o (length data_bytes) p h refl)))))))

-- The length of what has been read, with one more number in it.
length-front :
    (front : Bytes) (z : ℤ) (o : ℕ) → o ≡ length front → o + 4 ≡ length (front ++ put_int32 z)
length-front front z o h = omega (arith, length-append front (put_int32 z), length-put_int32 z)

-- The data with the fields before `pb_data` filled in.
abbrev pub header_read : ℕ → Bytes → Bytes → ℤ → Bytes → TinyPbStruct → TinyPbStruct
header_read k seq name code info d = record d {
  pk_len = pos k;
  msg_req_len = pos (length seq);
  msg_seq = seq;
  service_name_len = pos (length name);
  service_full_name = name;
  err_code = code;
  err_info_len = pos (length info);
  err_info = info;
  decode_succ = false;
}

decode_err-at :
    (v front : Bytes) (code : ℤ) (info rest : Bytes) (end o : ℕ) (d : TinyPbStruct)
    → v ≡ front ++ (put_int32 code ++ (put_int32 (pos (length info)) ++ (info ++ rest)))
    → o ≡ length front
    → in_int32 code ≡ true
    → length info < 512
    → NoZero info
    → o + 4 < end
    → decode_err v (pos end) (pos o) d
      ≡ decode_pb_data v
          (pos end)
          (pos (o + 4 + 4 + length info))
          (record d { err_code = code; err_info_len = pos (length info); err_info = info })
unfolding decode_err
decode_err-at v front code info rest end o d p h c fits z below =
    let n = pos (length info) in
    let p1 = regroup front (put_int32 code) _ p in
    let h1 = length-front front code o h in
    let p2 = regroup (front ++ put_int32 code) (put_int32 n) _ p1 in
    let h2 = length-front (front ++ put_int32 code) n (o + 4) h1 in
    rw (get_int32-at v front _ code o p h c) (
      rw (lt→leb end (o + 4) below) (
        rw (get_int32-at v _ _ n (o + 4) p1 h1 (lt→ltb (length info) 2_147_483_648 (omega arith)))
          (rw (copy_c_str-at 512 v _ info _ (o + 4 + 4) (length info) p2 h2 refl fits z))))

decode_service-at :
    (v front name : Bytes) (code : ℤ) (info rest : Bytes) (end o k : ℕ) (d : TinyPbStruct)
    → v
      ≡ front
        ++ (put_int32 (pos (length name))
            ++ (name ++ (put_int32 code ++ (put_int32 (pos (length info)) ++ (info ++ rest)))))
    → o ≡ length front
    → length name < 512
    → NoZero name
    → in_int32 code ≡ true
    → length info < 512
    → NoZero info
    → o + 8 + length name < end
    → length name ≤ k
    → decode_service v (pos end) (pos o) (record d { pk_len = pos k })
      ≡ decode_pb_data v (pos end) (pos (o + 4 + length name + 4 + 4 + length info)) (record d {
        pk_len = pos k;
        service_name_len = pos (length name);
        service_full_name = name;
        err_code = code;
        err_info_len = pos (length info);
        err_info = info;
      })
unfolding decode_service
decode_service-at v front name code info rest end o k d p h fits z c fits' z' below le =
    let n = pos (length name) in
    let p1 = regroup front (put_int32 n) _ p in
    let h1 = length-front front n o h in
    let front1 = front ++ put_int32 n in
    (rw (lt→leb end o (omega arith)) (
      rw (lt→leb end (o + 4) (omega arith)) (
        rw (get_int32-at v front _ n o p h (lt→ltb (length name) 2_147_483_648 (omega arith))) (
          rw (le→ltb k (length name) le) (
            rw (copy_c_str-at 512 v front1 name _ (o + 4) (length name) p1 h1 refl fits z) (
              decode_err-at v (front1 ++ name) code info rest end (o + 4 + length name)
                (record d { pk_len = pos k; service_name_len = n; service_full_name = name })
                (regroup front1 name _ p1) (omega (arith, length-append front1 name)) c fits' z'
                (omega arith)))))))

-- What Decode's fixed arrays hold: no zero byte, and room for the terminator.
pub record IsHeader (seq name : Bytes) (code : ℤ) (info : Bytes) : Type 0 where
  pub seq_ne : 0 < length seq
  pub seq_fits : length seq < 50
  pub seq_text : NoZero seq
  pub name_fits : length name < 512
  pub name_text : NoZero name
  pub code_fits : in_int32 code ≡ true
  pub info_fits : length info < 512
  pub info_text : NoZero info

-- The fields of a package before `pb_data`.
abbrev pub header_of : Bytes → Bytes → ℤ → Bytes → Bytes → Bytes
header_of seq name code info rest =
    put_int32 (pos (length seq))
    ++ (seq
        ++ (put_int32 (pos (length name))
            ++ (name ++ (put_int32 code ++ (put_int32 (pos (length info)) ++ (info ++ rest))))))

-- Decode reads the header back, and comes to `pb_data` behind it.
pub decode_fields-at :
    (v front head seq name : Bytes) (code : ℤ) (info rest : Bytes) (o end k : ℕ) (d : TinyPbStruct)
    → v ≡ front ++ (head ++ header_of seq name code info rest)
    → o ≡ length front
    → length head ≡ 5
    → IsHeader seq name code info
    → o + 17 + length seq + length name < end
    → length name ≤ k
    → decode_fields v (record { start_index = pos o; end_index = pos end; pk_len = pos k }) d
      ≡ decode_pb_data v
          (pos end)
          (pos (o + 1 + 4 + 4 + length seq + 4 + length name + 4 + 4 + length info))
          (header_read k seq name code info d)
unfolding decode_fields
decode_fields-at v front head seq name code info rest o end k d p h five s below le =
    let n = pos (length seq) in
    let p1 = regroup front head _ p in
    let h1 : o + 1 + 4 ≡ length (front ++ head) = omega (arith, length-append front head) in
    let p2 = regroup (front ++ head) (put_int32 n) _ p1 in
    let h2 = length-front (front ++ head) n (o + 1 + 4) h1 in
    let front2 = (front ++ head) ++ put_int32 n in
    (rw (lt→leb end (o + 1 + 4) (omega arith)) (
      rw
        (get_int32-at v (front ++ head) _ n (o + 1 + 4) p1 h1
          (lt→ltb (length seq) 2_147_483_648 (omega (arith, s.seq_fits))))
        (rw (lt→leb (length seq) 0 s.seq_ne) (
          rw
            (copy_c_str-at 50 v front2 seq _ (o + 1 + 4 + 4) (length seq) p2 h2 refl s.seq_fits
              s.seq_text)
            (decode_service-at v (front2 ++ seq) name code info rest end
              (o + 1 + 4 + 4 + length seq) k
              (record d { msg_req_len = n; msg_seq = seq; decode_succ = false })
              (regroup front2 seq _ p2) (omega (arith, length-append front2 seq)) s.name_fits
              s.name_text s.code_fits s.info_fits s.info_text (omega arith) le)))))
