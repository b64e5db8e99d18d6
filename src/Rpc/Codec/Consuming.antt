-- ===== src/Rpc/Codec/Consuming.antt =====
-- A package that Decode reports as read has left the buffer.
use tirpc.Buffer.{TcpBuffer, recycle_read}
use tirpc.Buffer.Contents.{between, IsValid, valid, contents, length-contents}
use tirpc.Buffer.Reading.{recycle_read-Yields}
use tirpc.Prelude.{
  ℕ, zero, suc, ◌+◌, ◌-◌, ◌≤◌, ◌<◌, ◌≡◌, refl, sym, ap, ◌∙◌, subst, Bool, true, false, Option, none,
  some, if◌then◌else◌, ◌==◌, ltb_ℤ, leb_ℤ, ℤ, pos, negsuc, ◌+ℤ◌, ◌-ℤ◌, Bytes, Outcome, ok, fault,
  throws, ◌>>=◌, length, length-drop, arith, byte_at, int_add, sub_ℕ-pos,
}
use tirpc.Rpc.Codec.{pb_start, pb_end, Found, find_package, decode_fields, rounds_of, decode}
use tirpc.Rpc.Data.{TinyPbStruct}
use tirpc.Rpc.NetByte.{get_int32}

-- A package that was found starts at `i` or behind it, and ends before `w`.
abbrev Within : ℕ → ℕ → Outcome (Option Found) → Type 0
Within i w (ok none) = Unit
Within i w (ok (some f)) =
    (s : ℕ) × (f.start_index ≡ pos s) × (i ≤ s) × (leb_ℤ (pos w) f.end_index ≡ false)
Within i w fault = Unit
Within i w throws = Unit

if_Within :
    (i w : ℕ) (b : Bool) (x y : Outcome (Option Found))
    → (b ≡ true → Within i w x)
    → (b ≡ false → Within i w y)
    → Within i w (if b then x else y)
if_Within i w true x y h k = h refl
if_Within i w false x y h k = k refl

Within-after :
    {A : Type 0} (i w : ℕ) (m : Outcome A) (f : A → Outcome (Option Found))
    → ((a : A) → Within i w (f a))
    → Within i w (m >>= f)
Within-after i w (ok a) f h = h a
Within-after i w fault f h = tt
Within-after i w throws f h = tt

Within-weaken : (i w : ℕ) (m : Outcome (Option Found)) → Within (i + 1) w m → Within i w m
Within-weaken i w (ok none) h = tt
Within-weaken i w (ok (some f)) (s, e, l, k) = (s, e, omega arith, k)
Within-weaken i w fault h = tt
Within-weaken i w throws h = tt

find_package-Within : (n : ℕ) (v : Bytes) (w i : ℕ) → Within i w (find_package n v (pos w) (pos i))
unfolding find_package
find_package-Within zero v w i = tt
find_package-Within (suc n) v w i =
    let next = find_package n v (pos w) (pos (i + 1)) in
    let later : Within i w next = Within-weaken i w next (find_package-Within n v w (i + 1)) in
    Within-after i w (byte_at v (pos i)) _ (λ c.
      if_Within i w (c == pb_start) _ next
        (λ e.
          if_Within i w (ltb_ℤ (pos (i + 1)) (pos w)) _ next
            (λ e. Within-after i w (get_int32 v (pos (i + 1))) _ (λ k.
              Within-after i w (int_add (pos i) k) _ (λ past.
                Within-after i w (int_add past (negsuc 0)) _ (λ j.
                  if_Within i w (leb_ℤ (pos w) j) next _ (λ e. later)
                    (λ before. Within-after i w (byte_at v j) _ (λ c'.
                      if_Within i w (c' == pb_end)
                        (ok (some (record { start_index = pos i; end_index = j; pk_len = k }))) next
                        (λ e. (i, refl, omega arith, before)) (λ e. later)))))))
            (λ e. later))
        (λ e. later))

long_enough :
    (v : Bytes) (f : Found) (d d' : TinyPbStruct)
    → decode_fields v f d ≡ ok d'
    → d'.decode_succ ≡ true
    → leb_ℤ f.end_index (f.start_index +ℤ pos 1 +ℤ pos 4) ≡ false
unfolding decode_fields
long_enough v f d d' e h = ground arith

-- What recycle_read leaves, for a package within the written bytes.
abbrev pub Shorter : TcpBuffer → Outcome (TcpBuffer × TinyPbStruct) → Type 0
Shorter b (ok (b', d')) =
    d'.decode_succ ≡ true → IsValid b' × (length (contents b') < length (contents b))
Shorter b fault = Unit
Shorter b throws = Unit

same_buffer : (a b : TcpBuffer) → ok a ≡ ok b → a ≡ b
same_buffer a b e = ap held e
  where
    held : Outcome TcpBuffer → TcpBuffer
    held (ok c) = c
    held fault = a
    held throws = a

Shorter-after :
    {A : Type 0} (b : TcpBuffer) (m : Outcome A) (f : A → Outcome (TcpBuffer × TinyPbStruct))
    → ((a : A) → m ≡ ok a → Shorter b (f a))
    → Shorter b (m >>= f)
Shorter-after b (ok a) f h = h a refl
Shorter-after b fault f h = tt
Shorter-after b throws f h = tt

module _ (r w s : ℕ) (v : Bytes) (h : r ≤ w) (k : w ≤ length v) (l : r ≤ s) where
  recycled :
      (z : ℤ) (b' : TcpBuffer)
      → leb_ℤ (pos w) z ≡ false
      → leb_ℤ z (pos (s + 1 + 4)) ≡ false
      → recycle_read (z +ℤ pos 1 -ℤ pos s) (between r w v) ≡ ok b'
      → IsValid b' × (length (contents b') < length (contents (between r w v)))
  recycled (pos e) b' m n f =
      let before : e < w = ground arith in
      let far : s + 5 < e = ground arith in
      let size = length-contents r w v h k in
      let (b'', g, v'', c) =
        recycle_read-Yields (e + 1 - s) (between r w v) (valid r w v h k) (omega arith) in
      let same : b'' ≡ b' = same_buffer b'' b' (
        sym g
        ∙ ap (λ z. recycle_read z (between r w v))
            (sym (sub_ℕ-pos (e + 1) s (e + 1 - s) (omega arith)))
        ∙ f) in
      (
        subst IsValid same v'',
        omega (
          arith,
          ap (λ q. length (contents q)) same,
          ap length c,
          length-drop (e + 1 - s) (contents (between r w v)),
          size,
        ),
      )
  recycled (negsuc e) b' m n f = ground arith

Shorter-found :
    (r w : ℕ) (v : Bytes) (o : Outcome (Option Found)) (d : TinyPbStruct)
    → r ≤ w
    → w ≤ length v
    → d.decode_succ ≡ false
    → Within r w o
    → Shorter (between r w v) (
        o >>= λ p. elim p [
          | none ↦ ok (between r w v, d)
          | some f ↦ (do
            b' ← recycle_read (f.end_index +ℤ pos 1 -ℤ f.start_index) (between r w v)
            d' ← decode_fields v f d
            ok (b', d'))
        ])
Shorter-found r w v (ok none) d h k z i = λ e. ground arith
Shorter-found r w v (ok (some f)) d h k z (s, e, l, m) =
    Shorter-after (between r w v)
      (recycle_read (f.end_index +ℤ pos 1 -ℤ f.start_index) (between r w v)) _
      (λ b' g.
        Shorter-after (between r w v) (decode_fields v f d) (λ d'. ok (b', d'))
          (λ d' g' good.
            let far = long_enough v f d d' g' good in
            recycled r w s v h k l f.end_index b' m
              (subst (λ q. leb_ℤ f.end_index (q +ℤ pos 1 +ℤ pos 4) ≡ false) e far)
              (subst (λ q. recycle_read (f.end_index +ℤ pos 1 -ℤ q) (between r w v) ≡ ok b') e g)))
Shorter-found r w v fault d h k z i = tt
Shorter-found r w v throws d h k z i = tt

-- Decode of a valid buffer, when it sets decode_succ, leaves a valid buffer with fewer bytes.
pub decode-Shorter :
    (b : TcpBuffer) (d : TinyPbStruct) → IsValid b → d.decode_succ ≡ false → Shorter b (decode b d)
unfolding decode
decode-Shorter b d (valid r w v h k) z =
    Shorter-found r w v (find_package (rounds_of (pos w -ℤ pos r)) v (pos w) (pos r)) d h k z
      (find_package-Within (rounds_of (pos w -ℤ pos r)) v w r)
