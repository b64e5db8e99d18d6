-- ===== src/Rpc/Codec/RoundTrip.antt =====
-- Encode and Decode against one another, through the buffer.
use tirpc.Buffer.{TcpBuffer}
use tirpc.Buffer.Contents.{index, IsValid, contents}
use tirpc.Buffer.Writing.{write_to_buffer-cases}
use tirpc.MsgReq.{MsgReq, is_empty}
use tirpc.Prelude.{
  ℕ, fault, inl, inr, ◌⊎◌, subst, ap, append-nil, ◌+◌, ◌<◌, ◌≡◌, refl, sym, ◌∙◌, true, false, [],
  ◌∷◌, ◌++◌, arith, lt→ltb, ℤ, pos, ok, Bytes, length, length-append, append_assoc, Outcome, ◌>>=◌,
  Option,
}
use tirpc.Rpc.Codec.{pk_len_of, package_of, encode, encoded, decode, decode_fields, pb_end}
use tirpc.Rpc.Codec.Fields.{IsHeader, header_of, header_read, decode_fields-at, decode_pb_data-at}
use tirpc.Rpc.Codec.Frame.{opening, frame_of, frame_of-append, AtFrame, decode-AtFrame}
use tirpc.Rpc.Data.{TinyPbStruct}
use tirpc.Rpc.NetByte.{put_int32, length-put_int32}

-- What a client may send: header fields that Decode's arrays hold, a service name, and a total
-- length that is an `int32_t`.
pub record IsSendable (d : TinyPbStruct) : Type 0 where
  pub header : IsHeader d.msg_seq d.service_full_name d.err_code d.err_info
  pub name_ne : 0 < length d.service_full_name
  pub total_fits : pk_len_of d < 2_147_483_648

-- The data `d0` once the package of `d` has been read into it.
abbrev pub received : TinyPbStruct → TinyPbStruct → TinyPbStruct
received d d0 = record d0 {
  pk_len = pos (pk_len_of d);
  msg_req_len = pos (length d.msg_seq);
  msg_seq = d.msg_seq;
  service_name_len = pos (length d.service_full_name);
  service_full_name = d.service_full_name;
  err_code = d.err_code;
  err_info_len = pos (length d.err_info);
  err_info = d.err_info;
  pb_data = d.pb_data;
  decode_succ = true;
}

-- A package between its opening and its end byte.
abbrev body_of : TinyPbStruct → Bytes
body_of d =
    header_of d.msg_seq d.service_full_name d.err_code d.err_info (d.pb_data ++ put_int32 (pos 1))

pub length-header_of :
    (seq name : Bytes) (code : ℤ) (info rest : Bytes)
    → length (header_of seq name code info rest)
      ≡ 16 + length seq + length name + length info + length rest
length-header_of seq name code info rest = simp (length-append, length-put_int32) (omega arith)

pub header_of-append :
    (seq name : Bytes) (code : ℤ) (info rest back : Bytes)
    → header_of seq name code info rest ++ back ≡ header_of seq name code info (rest ++ back)
header_of-append seq name code info rest back = simp append_assoc

length-body_of : (d : TinyPbStruct) → length (body_of d) + 6 ≡ pk_len_of d
length-body_of d = omega (
  arith,
  length-header_of d.msg_seq d.service_full_name d.err_code d.err_info
      (d.pb_data ++ put_int32 (pos 1)),
  length-append d.pb_data (put_int32 (pos 1)),
  length-put_int32 (pos 1),
)

-- What Encode writes is a package as Decode looks for it.
package_of-frame_of :
    (d : TinyPbStruct) (rest : Bytes) → package_of d ++ rest ≡ frame_of (body_of d) rest
unfolding package_of
package_of-frame_of d rest = rw (length-body_of d) (simp append_assoc)

-- The length field tells the length of the package.
pub length-package_of : (d : TinyPbStruct) → length (package_of d) ≡ pk_len_of d
unfolding package_of
length-package_of d = simp (length-append, length-put_int32) (omega arith)

-- The bytes of a package in a vector, up to `pb_data` and from there.
pub at_pb_data :
    (v front seq name : Bytes) (code : ℤ) (info rest : Bytes) (k : ℕ)
    → v ≡ front ++ (opening k ++ header_of seq name code info rest)
    → v ≡ (front ++ (opening k ++ header_of seq name code info [])) ++ rest
at_pb_data v front seq name code info rest k e = e ∙ simp append_assoc

package_fields :
    (v front back : Bytes) (o k end : ℕ) (d d0 : TinyPbStruct)
    → v
      ≡ front
        ++ (opening k
            ++ header_of d.msg_seq d.service_full_name d.err_code d.err_info
                (d.pb_data ++ (put_int32 (pos 1) ++ back)))
    → o ≡ length front
    → k ≡ pk_len_of d
    → end + 1 ≡ o + k
    → IsSendable d
    → decode_fields v (record { start_index = pos o; end_index = pos end; pk_len = pos k }) d0
      ≡ ok (record (received d d0) { pk_len = pos k })
package_fields v front back o k end d d0 e h size ends s =
    let front' =
      front ++ (opening k ++ header_of d.msg_seq d.service_full_name d.err_code d.err_info []) in
    decode_fields-at v front (opening k) d.msg_seq d.service_full_name d.err_code d.err_info _ o end
      k d0 e h (omega (arith, length-put_int32 (pos k))) s.header (omega arith) (omega arith)
    ∙ decode_pb_data-at v front' d.pb_data (put_int32 (pos 1) ++ back) end
        (o
          + 1
          + 4
          + 4
          + length d.msg_seq
          + 4
          + length d.service_full_name
          + 4
          + 4
          + length d.err_info)
        k (length d.msg_seq) (length d.service_full_name) (length d.err_info)
        (header_read k d.msg_seq d.service_full_name d.err_code d.err_info d0)
        (at_pb_data v front d.msg_seq d.service_full_name d.err_code d.err_info _ k e)
        (omega (
          arith,
          length-append front
              (opening k ++ header_of d.msg_seq d.service_full_name d.err_code d.err_info []),
          length-append (opening k)
              (header_of d.msg_seq d.service_full_name d.err_code d.err_info []),
          length-header_of d.msg_seq d.service_full_name d.err_code d.err_info [],
          length-put_int32 (pos k),
        ))
        (omega arith) (omega arith)

body-pieces :
    (d : TinyPbStruct) (k : ℕ) (back : Bytes)
    → opening k ++ (body_of d ++ back)
      ≡ opening k
        ++ header_of d.msg_seq d.service_full_name d.err_code d.err_info
            (d.pb_data ++ (put_int32 (pos 1) ++ back))
body-pieces d k back = simp append_assoc

-- Decode takes the package of `d` off the front of the buffer, whatever follows it, and fills in
-- every field that the package carries.
pub decode-package_of :
    (b : TcpBuffer) (d d0 : TinyPbStruct) (rest : Bytes)
    → IsValid b
    → length b.buffer < 2_147_483_648
    → contents b ≡ package_of d ++ rest
    → IsSendable d
    → (b' : TcpBuffer) × (decode b d0 ≡ ok (b', received d d0)) × IsValid b' × (contents b' ≡ rest)
decode-package_of b d d0 rest v small c s = (
  at.after,
  at.decodes ∙ ap (λ m. m >>= λ d'. ok (at.after, d')) fields,
  at.after_valid,
  at.after_contents,
)
  where
    at : AtFrame b (body_of d) rest d0
    at = decode-AtFrame b (body_of d) rest d0 v small (c ∙ package_of-frame_of d rest)

    back : Bytes
    back = pb_end ∷ (rest ++ at.back)

    splits : b.buffer ≡ at.front ++ frame_of (body_of d) (rest ++ at.back)
    splits = at.splits ∙ ap (λ x. at.front ++ x) (frame_of-append (body_of d) rest at.back)

    pieces :
        frame_of (body_of d) (rest ++ at.back)
        ≡ opening (length (body_of d) + 6)
          ++ header_of d.msg_seq d.service_full_name d.err_code d.err_info
              (d.pb_data ++ (put_int32 (pos 1) ++ back))
    pieces = body-pieces d (length (body_of d) + 6) back

    fields :
        decode_fields b.buffer
          (record {
            start_index = pos at.start;
            end_index = pos (at.start + length (body_of d) + 5);
            pk_len = pos (length (body_of d) + 6);
          })
          d0
        ≡ ok (received d d0)
    fields =
        package_fields b.buffer at.front back at.start (length (body_of d) + 6)
          (at.start + length (body_of d) + 5) d d0 (splits ∙ ap (λ x. at.front ++ x) pieces)
          at.start_is (length-body_of d) (omega arith) s
        ∙ ap (λ k. ok (record (received d d0) { pk_len = pos k })) (length-body_of d)

nonempty : (xs : Bytes) → 0 < length xs → is_empty xs ≡ false
nonempty [] h = absurd (omega arith)
nonempty (x ∷ xs) h = refl

-- Encode succeeds, and appends the package of `d` to the buffer.
abbrev pub Encodes :
    MsgReq → TcpBuffer → TinyPbStruct → Outcome (TcpBuffer × TinyPbStruct × MsgReq) → Type 0
Encodes g b d m =
    (b' : TcpBuffer) × (m ≡ ok (b', encoded d, g))
    × IsValid b'
    × (contents b' ≡ contents b ++ package_of d)

-- Encode of data that may be sent draws no message number; it fails only where the buffer cannot grow.
pub encode-cases :
    (n : ℕ) (random : Option Bytes) (g : MsgReq) (b : TcpBuffer) (d : TinyPbStruct)
    → IsValid b
    → IsSendable d
    → Encodes g b d (encode n random g b d)
      ⊎ ((encode n random g b d ≡ fault)
          × (1_431_655_765 < index b.write_index + length (package_of d)))
unfolding encode
encode-cases n random g b d v s = rw (nonempty d.service_full_name s.name_ne) (
    rw (nonempty d.msg_seq s.header.seq_ne) (
      rw (lt→ltb (pk_len_of d) 2_147_483_648 s.total_fits)
        (elim (write_to_buffer-cases (package_of d) b v) [
          | inl (b', e, v', c) ↦ inl (b', rw e refl, v', c)
          | inr (e, over) ↦ inr (rw e refl, over)
        ])))

ok_first {ℓ κ μ} :
    {A : Type ℓ} {B : Type κ} {C : Type μ} {x x' : A} {y y' : B} {z z' : C}
    → ◌≡◌ {A = Outcome (A × B × C)} (ok (x, y, z)) (ok (x', y', z'))
    → x ≡ x'
ok_first e = ground arith

pub no_result {ℓ} : {A : Type ℓ} {x : A} → ◌≡◌ {A = Outcome A} fault (ok x) → ⊥
no_result e = ground arith

-- A call of Encode that has a result.
pub encoded_from :
    (n : ℕ) (random : Option Bytes) (g : MsgReq) (b : TcpBuffer) (d : TinyPbStruct) (b' : TcpBuffer)
    (d' : TinyPbStruct) (g' : MsgReq)
    → IsValid b
    → IsSendable d
    → encode n random g b d ≡ ok (b', d', g')
    → Encodes g b d (encode n random g b d)
encoded_from n random g b d b' d' g' v s e = elim (encode-cases n random g b d v s) [
  | inl y ↦ y
  | inr (f, over) ↦ elim (no_result (sym f ∙ e)) [ ]
]

-- A package that Encode has put into an empty buffer comes out of Decode with every field that it
-- carries, and leaves the buffer empty again.
pub decode-encode :
    (n : ℕ) (random : Option Bytes) (g g' : MsgReq) (b b' : TcpBuffer) (d d' d0 : TinyPbStruct)
    → IsValid b
    → contents b ≡ []
    → IsSendable d
    → encode n random g b d ≡ ok (b', d', g')
    → length b'.buffer < 2_147_483_648
    → (b'' : TcpBuffer) × (decode b' d0 ≡ ok (b'', received d d0)) × (contents b'' ≡ [])
decode-encode n random g g' b b' d d' d0 v empty s e small =
    let (c, e', v', k) = encoded_from n random g b d b' d' g' v s e in
    let same : c ≡ b' = ok_first (sym e' ∙ e) in
    let full : contents b' ≡ package_of d ++ [] =
      ap contents (sym same)
      ∙ k
      ∙ ap (λ x. x ++ package_of d) empty
      ∙ sym (append-nil (package_of d)) in
    let (b'', e'', _, k'') = decode-package_of b' d d0 [] (subst IsValid same v') small full s in
    (b'', e'', k'')
