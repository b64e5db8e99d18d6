-- ===== src/Rpc/Codec.antt =====
-- net/rpc/rpc_codec.cpp: the bytes of a TinyPb package. Neither function is ever handed a null
-- pointer or data of another protocol, so the checks for those are left out, with the log lines.
pub mod Pieces
pub mod Fields
pub mod Frame
pub mod RoundTrip
pub mod Malformed
pub mod Consuming
use tirpc.Buffer.{TcpBuffer, write_to_buffer, recycle_read}
use tirpc.MsgReq.{MsgReq, gen_msg_number, is_empty}
use tirpc.Prelude.{
  ℕ, zero, suc, ◌+◌, ◌-◌, Bool, true, false, [], ◌∷◌, ◌++◌, Option, none, some, ◌==◌, leb, ltb,
  if◌then◌else◌, ℤ, pos, negsuc, ◌+ℤ◌, ◌-ℤ◌, ltb_ℤ, leb_ℤ, int_add, Outcome, ok, fault, throws,
  ◌>>=◌, Bytes, slice, byte_at, length, replicate,
}
use tirpc.Rpc.Data.{TinyPbStruct}
use tirpc.Rpc.NetByte.{put_int32, get_int32}

abbrev pub pb_start : ℕ
pb_start = 2

abbrev pub pb_end : ℕ
pb_end = 3

-- 2 * sizeof(char) + 6 * sizeof(int32_t) and the four strings.
abbrev pub pk_len_of : TinyPbStruct → ℕ
pk_len_of d =
    26 + length d.pb_data + length d.service_full_name + length d.msg_seq + length d.err_info

-- What EncodePbData writes into its block, front to back.
unfoldable pub package_of : TinyPbStruct → Bytes
package_of d =
    pb_start
    ∷ (put_int32 (pos (pk_len_of d))
        ++ (put_int32 (pos (length d.msg_seq))
            ++ (d.msg_seq
                ++ (put_int32 (pos (length d.service_full_name))
                    ++ (d.service_full_name
                        ++ (put_int32 d.err_code
                            ++ (put_int32 (pos (length d.err_info))
                                ++ (d.err_info
                                    ++ (d.pb_data ++ (put_int32 (pos 1) ++ (pb_end ∷ [])))))))))))

-- An empty message number is replaced by a fresh one.
unfoldable pub with_msg_seq : ℕ → Option Bytes → MsgReq → TinyPbStruct → TinyPbStruct × MsgReq
with_msg_seq len random g d =
    if is_empty d.msg_seq
    then (let (seq, g') = gen_msg_number len random g in
        (record d { msg_seq = seq; msg_req_len = pos (length seq) }, g'))
    else (d, g)

-- The fields that EncodePbData sets once the bytes are written.
abbrev pub encoded : TinyPbStruct → TinyPbStruct
encoded d = record d {
  pk_len = pos (pk_len_of d);
  msg_req_len = pos (length d.msg_seq);
  service_name_len = pos (length d.service_full_name);
  err_info_len = pos (length d.err_info);
  check_num = pos 1;
  encode_succ = true;
}

-- EncodePbData; `none` is a null result. A length that does not fit an `int32_t` makes the block
-- too small, or malloc fail unchecked.
unfoldable pub encode_pb_data :
    ℕ → Option Bytes → MsgReq → TinyPbStruct → Outcome (Option Bytes × TinyPbStruct × MsgReq)
unfolding with_msg_seq
encode_pb_data len random g d =
    if is_empty d.service_full_name
    then ok (none, record d { encode_succ = false }, g)
    else (let (d', g') = with_msg_seq len random g d in
        if ltb (pk_len_of d') 2_147_483_648
        then ok (some (package_of d'), encoded d', g')
        else fault)

-- Encode
unfoldable pub encode :
    ℕ
    → Option Bytes
    → MsgReq
    → TcpBuffer
    → TinyPbStruct
    → Outcome (TcpBuffer × TinyPbStruct × MsgReq)
unfolding encode_pb_data
encode len random g b d = encode_pb_data len random g d >>= λ r. elim r.0 [
  | none ↦ ok (b, record r.1 { encode_succ = false }, r.2)
  | some re ↦ write_to_buffer re b >>= λ b'. ok (b', r.1, r.2)
]

-- start_index, end_index and pk_len of a package that was found.
pub record Found : Type 0 where
  pub start_index : ℤ
  pub end_index : ℤ
  pub pk_len : ℤ

-- The loop that looks for a start byte whose package ends, within the written bytes, in an end
-- byte. The first argument is the number of rounds left, WriteIndex() - i.
unfoldable pub find_package : ℕ → Bytes → ℤ → ℤ → Outcome (Option Found)
find_package zero tmp write_index i = ok none
find_package (suc rounds) tmp write_index i =
    let next = find_package rounds tmp write_index (i +ℤ pos 1) in
    byte_at tmp i >>= λ c.
    if c == pb_start
    then (if ltb_ℤ (i +ℤ pos 1) write_index
        then (do
          pk_len ← get_int32 tmp (i +ℤ pos 1)
          past ← int_add i pk_len
          j ← int_add past (negsuc 0)
          (if leb_ℤ write_index j
              then next
              else (byte_at tmp j >>= λ e.
                  if e == pb_end
                  then ok (some (record { start_index = i; end_index = j; pk_len = pk_len }))
                  else next)))
        else next)
    else next

-- The text in a zero-terminated array; without a terminator the read runs off its end.
unfoldable pub c_str : Bytes → Outcome Bytes
c_str [] = fault
c_str (c ∷ cs) = let rest = c_str cs in if c == 0 then ok [] else (rest >>= λ s. ok (c ∷ s))

-- char a[cap] = {0}; memcpy(a, &tmp[off], len); std::string(a)
unfoldable pub copy_c_str : ℕ → Bytes → ℤ → ℤ → Outcome Bytes
unfolding c_str
copy_c_str cap tmp off len = slice tmp off len >>= λ xs.
    if leb (length xs) cap then c_str (xs ++ replicate (cap - length xs) 0) else fault

-- The last part of Decode, from the length of `pb_data` on. The string throws at a negative length.
unfoldable pub decode_pb_data : Bytes → ℤ → ℤ → TinyPbStruct → Outcome TinyPbStruct
decode_pb_data tmp end_index pb_data_index d =
    let pb_data_len =
      d.pk_len -ℤ d.service_name_len -ℤ d.msg_req_len -ℤ d.err_info_len -ℤ pos 2 -ℤ pos 24 in
    if leb_ℤ end_index pb_data_index then ok d else elim pb_data_len [
      | negsuc n ↦ throws
      | pos n ↦ slice tmp pb_data_index (pos n) >>= λ xs.
          ok (record d { pb_data = xs; decode_succ = true })
    ]

-- From `err_code` on.
unfoldable pub decode_err : Bytes → ℤ → ℤ → TinyPbStruct → Outcome TinyPbStruct
unfolding decode_pb_data
decode_err tmp end_index err_code_index d = get_int32 tmp err_code_index >>= λ code.
    let d1 = record d { err_code = code } in
    let err_info_len_index = err_code_index +ℤ pos 4 in
    if leb_ℤ end_index err_info_len_index then ok d1 else (do
      len ← get_int32 tmp err_info_len_index
      let err_info_index = err_info_len_index +ℤ pos 4
      info ← copy_c_str 512 tmp err_info_index len
      decode_pb_data tmp end_index (err_info_index +ℤ len)
          (record d1 { err_info_len = len; err_info = info }))

-- From the service name on.
unfoldable pub decode_service : Bytes → ℤ → ℤ → TinyPbStruct → Outcome TinyPbStruct
unfolding decode_err
decode_service tmp end_index service_name_len_index d =
    let service_name_index = service_name_len_index +ℤ pos 4 in
    if leb_ℤ end_index service_name_len_index
    then ok d
    else if leb_ℤ end_index service_name_index
    then ok d
    else (get_int32 tmp service_name_len_index >>= λ len.
        let d1 = record d { service_name_len = len } in
        if ltb_ℤ d.pk_len len
        then ok d1
        else (copy_c_str 512 tmp service_name_index len >>= λ name.
            decode_err tmp end_index (service_name_index +ℤ len)
              (record d1 { service_full_name = name })))

abbrev is_zero : ℤ → Bool
is_zero (pos n) = leb n 0
is_zero (negsuc n) = false

-- The fields of a package that was found, from `msg_req_len` on. Each early return drops it.
unfoldable pub decode_fields : Bytes → Found → TinyPbStruct → Outcome TinyPbStruct
unfolding decode_service
decode_fields tmp f d =
    let d0 = record d { pk_len = f.pk_len; decode_succ = false } in
    let msg_req_len_index = f.start_index +ℤ pos 1 +ℤ pos 4 in
    if leb_ℤ f.end_index msg_req_len_index
    then ok d0
    else (get_int32 tmp msg_req_len_index >>= λ len.
        let d1 = record d0 { msg_req_len = len } in
        if is_zero len
        then ok d1
        else (let msg_req_index = msg_req_len_index +ℤ pos 4 in
            copy_c_str 50 tmp msg_req_index len >>= λ seq.
            decode_service tmp f.end_index (msg_req_index +ℤ len) (record d1 { msg_seq = seq })))

abbrev pub rounds_of : ℤ → ℕ
rounds_of (pos n) = n
rounds_of (negsuc n) = 0

-- Decode: the buffer after it, and the data.
unfoldable pub decode : TcpBuffer → TinyPbStruct → Outcome (TcpBuffer × TinyPbStruct)
unfolding find_package decode_fields
decode b d =
    let tmp = b.buffer in
    find_package (rounds_of (b.write_index -ℤ b.read_index)) tmp b.write_index b.read_index >>= λ o.
    elim o [
      | none ↦ ok (b, d)
      | some f ↦ do
        b' ← recycle_read (f.end_index +ℤ pos 1 -ℤ f.start_index) b
        d' ← decode_fields tmp f d
        ok (b', d')
    ]
