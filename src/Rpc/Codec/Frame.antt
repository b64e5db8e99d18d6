-- ===== src/Rpc/Codec/Frame.antt =====
-- How Decode finds a package: a start byte, a length that leads to an end byte, and between them
-- any bytes at all.
use tirpc.Buffer.{TcpBuffer, recycle_read}
use tirpc.Buffer.Contents.{between, IsValid, valid, contents, Yields, length-contents}
use tirpc.Buffer.Reading.{recycle_read-Yields}
use tirpc.Prelude.{
  ℕ, ap, suc, ◌+◌, ◌-◌, ◌≤◌, ◌<◌, ◌≡◌, sym, ◌∙◌, [], ◌∷◌, ◌++◌, arith, lt→leb, lt→ltb, sub_ℕ-pos,
  pos, ok, some, Bytes, byte_at-at, length, length-append, append_assoc, le→leb, take, drop,
  take-append-drop, drop-append, ◌>>=◌, length-take,
}
use tirpc.Rpc.Codec.{find_package, decode, decode_fields, pb_start, pb_end}
use tirpc.Rpc.Codec.Pieces.{regroup, get_int32-at}
use tirpc.Rpc.Data.{TinyPbStruct}
use tirpc.Rpc.NetByte.{put_int32, length-put_int32}

-- The start byte and the length field.
abbrev pub opening : ℕ → Bytes
opening k = pb_start ∷ put_int32 (pos k)

-- A package around `body`, and what follows it.
abbrev pub frame_of : Bytes → Bytes → Bytes
frame_of body rest = opening (length body + 6) ++ (body ++ (pb_end ∷ rest))

pub length-frame_of :
    (body rest : Bytes) → length (frame_of body rest) ≡ length body + 6 + length rest
length-frame_of body rest = omega (
  arith,
  length-append (opening (length body + 6)) (body ++ (pb_end ∷ rest)),
  length-append body (pb_end ∷ rest),
  length-put_int32 (pos (length body + 6)),
)

find_package-at :
    (v front body rest : Bytes) (o w n : ℕ)
    → v ≡ front ++ frame_of body rest
    → o ≡ length front
    → o + length body + 6 ≤ w
    → w < 2_147_483_648
    → find_package (suc n) v (pos w) (pos o)
      ≡ ok (
          some (record {
            start_index = pos o;
            end_index = pos (o + length body + 5);
            pk_len = pos (length body + 6);
          }))
unfolding find_package
find_package-at v front body rest o w n p h in_buffer small =
    let k = length body + 6 in
    let j = o + length body + 5 in
    let start : v ≡ front ++ ((pb_start ∷ []) ++ (put_int32 (pos k) ++ (body ++ (pb_end ∷ rest)))) =
      p in
    let stop : v ≡ ((front ++ opening k) ++ body) ++ (pb_end ∷ rest) =
      regroup (front ++ opening k) body _ (regroup front (opening k) _ p) in
    let assoc : o + (length body + 6) ≡ suc j = omega arith in
    rw (byte_at-at v front pb_start _ o start h) (
      rw (lt→ltb (o + 1) w (omega arith)) (
        rw
          (get_int32-at v (front ++ (pb_start ∷ [])) _ (pos k) (o + 1)
            (regroup front (pb_start ∷ []) _ start)
            (omega (arith, length-append front (pb_start ∷ [])))
            (lt→ltb k 2_147_483_648 (omega arith)))
          (rw assoc (
            rw (lt→ltb (suc j) 2_147_483_648 (omega arith)) (
              rw (sub_ℕ-pos (suc j) 1 j (omega arith)) (
                rw (lt→ltb j 2_147_483_648 (omega arith)) (
                  rw (lt→leb w j (omega arith)) (
                    rw (
                      byte_at-at v ((front ++ opening k) ++ body) pb_end rest j stop (
                        omega (
                          arith,
                          length-append (front ++ opening k) body,
                          length-append front (opening k),
                          length-put_int32 (pos k),
                        )))))))))))

-- What Decode does once the front of the buffer holds a whole package: it drops the package, and
-- reads the fields from its copy of the vector.
pub record AtFrame (b : TcpBuffer) (body rest : Bytes) (d : TinyPbStruct) : Type 0 where
  pub after : TcpBuffer
  pub start : ℕ
  pub front : Bytes
  pub back : Bytes
  pub start_is : start ≡ length front
  pub splits : b.buffer ≡ front ++ (frame_of body rest ++ back)
  pub after_valid : IsValid after
  pub after_contents : contents after ≡ rest
  pub decodes : decode b d ≡ (
      decode_fields b.buffer
        (record {
          start_index = pos start;
          end_index = pos (start + length body + 5);
          pk_len = pos (length body + 6);
        })
        d
      >>= λ d'. ok (after, d'))

-- The vector around its contents.
split_buffer :
    (r w : ℕ) (v : Bytes) → v ≡ take r v ++ (take (w - r) (drop r v) ++ drop (w - r) (drop r v))
split_buffer r w v =
    sym (take-append-drop r v) ∙ ap (λ x. take r v ++ x) (sym (take-append-drop (w - r) (drop r v)))

pub frame_of-append :
    (body rest back : Bytes) → frame_of body rest ++ back ≡ frame_of body (rest ++ back)
frame_of-append body rest back = simp append_assoc

drop-frame_of : (body rest : Bytes) → drop (length body + 6) (frame_of body rest) ≡ rest
drop-frame_of body rest =
    ap (drop (length body + 6)) (sym (frame_of-append body [] rest))
    ∙ drop-append (length body + 6) (frame_of body []) rest (omega (arith, length-frame_of body []))

pub decode-AtFrame :
    (b : TcpBuffer) (body rest : Bytes) (d : TinyPbStruct)
    → IsValid b
    → length b.buffer < 2_147_483_648
    → contents b ≡ frame_of body rest
    → AtFrame b body rest d
decode-AtFrame b body rest d (valid r w v h k) small c = record {
  after = dropped.0;
  start = r;
  front = take r v;
  back = drop (w - r) (drop r v);
  start_is = omega (arith, length-take r v);
  splits = splits;
  after_valid = dropped.2;
  after_contents = dropped.3 ∙ ap (drop K) c ∙ drop-frame_of body rest;
  decodes =
      unfold decode in
      rw (le→leb r w h) (
        rw rounds (
          rw
            (find_package-at v (take r v) body (rest ++ drop (w - r) (drop r v)) r w (w - r - 1)
              (splits
                ∙ ap (λ x. take r v ++ x) (frame_of-append body rest (drop (w - r) (drop r v))))
              (omega (arith, length-take r v)) (omega (arith, total)) (omega arith))
            (rw (sub_ℕ-pos (r + length body + 5 + 1) r K (omega arith)) (rw dropped.1))));
}
  where
    K : ℕ
    K = length body + 6

    total : w - r ≡ K + length rest
    total = omega (arith, length-contents r w v h k, ap length c, length-frame_of body rest)

    rounds : w - r ≡ suc (w - r - 1)
    rounds = omega (arith, total)

    splits : v ≡ take r v ++ (frame_of body rest ++ drop (w - r) (drop r v))
    splits = split_buffer r w v ∙ ap (λ x. take r v ++ (x ++ drop (w - r) (drop r v))) c

    dropped : Yields (recycle_read (pos K) (between r w v)) (drop K (contents (between r w v)))
    dropped =
        recycle_read-Yields K (between r w v) (valid r w v h k)
          (omega (arith, total, length-contents r w v h k))
