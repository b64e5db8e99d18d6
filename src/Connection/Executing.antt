-- ===== src/Connection/Executing.antt =====
-- Execute: the loop over the packages in the read buffer.
use tirpc.Prelude.{
  ℕ, zero, suc, ◌<◌, ◌≡◌, refl, sym, ap, subst, Bool, true, false, Option, none, some,
  if◌then◌else◌, pos, leb_ℤ, Bytes, Outcome, ok, fault, throws, ◌>>=◌, length, arith,
}
use tirpc.Buffer.{TcpBuffer, readable}
use tirpc.Buffer.Contents.{IsValid, contents}
use tirpc.Connection.{Connection}
use tirpc.Connection.Packages.{store_reply, deliver, execute}

-- What the loop relies on: a package that is decoded has been taken out of the buffer, and to
-- dispatch it does not touch the buffer that it came from.
pub record Consumes {D S : Type 0} (decode : TcpBuffer → Outcome (D × TcpBuffer))
    (succeeded : D → Bool) (dispatch : D → S → Connection D → Outcome (S × Connection D))
    : Type 0 where
  pub shorter :
      (b : TcpBuffer) (d : D) (b' : TcpBuffer)
      → IsValid b
      → decode b ≡ ok (d, b')
      → succeeded d ≡ true
      → IsValid b' × (length (contents b') < length (contents b))
  pub apart :
      (d : D) (s : S) (c : Connection D) (s' : S) (c' : Connection D)
      → dispatch d s c ≡ ok (s', c')
      → c'.read_buffer ≡ c.read_buffer

module _ {D S : Type 0} (decode : TcpBuffer → Outcome (D × TcpBuffer)) (succeeded : D → Bool)
    (reply_key : D → Option Bytes)
    (dispatch : D → S → Connection D → Outcome (S × Connection D)) where
  -- The loop has not been cut off.
  abbrev pub Ends : Outcome (Option (S × Connection D)) → Type 0
  Ends (ok none) = ⊥
  Ends (ok (some r)) = Unit
  Ends fault = Unit
  Ends throws = Unit

  if_Ends :
      (b : Bool) (x y : Outcome (Option (S × Connection D)))
      → (b ≡ true → Ends x)
      → (b ≡ false → Ends y)
      → Ends (if b then x else y)
  if_Ends true x y h k = h refl
  if_Ends false x y h k = k refl

  Ends-after :
      {A : Type 0} (m : Outcome A) (f : A → Outcome (Option (S × Connection D)))
      → ((a : A) → m ≡ ok a → Ends (f a))
      → Ends (m >>= f)
  Ends-after (ok a) f k = k a refl
  Ends-after fault f k = tt
  Ends-after throws f k = tt

  deliver-read_buffer :
      Consumes decode succeeded dispatch
      → (d : D) (s : S) (c : Connection D) (s' : S) (c' : Connection D)
      → deliver decode succeeded reply_key dispatch d s c ≡ ok (s', c')
      → c'.read_buffer ≡ c.read_buffer
  unfolding deliver store_reply
  deliver-read_buffer h d s c s' c' e = ground (arith, h.apart d s c s' c')

  -- Execute ends: with a codec and a dispatcher as above and a valid read buffer, the loop takes fewer
  -- rounds than there are bytes, and one to find the buffer empty.
  pub execute-Ends :
      Consumes decode succeeded dispatch
      → (n : ℕ) (s : S) (c : Connection D) → IsValid c.read_buffer
      → length (contents c.read_buffer) < n
      → Ends (execute decode succeeded reply_key dispatch n s c)
  unfolding execute
  execute-Ends h zero s c v l = absurd (omega arith)
  execute-Ends h (suc n) s c v l =
      let finish : D × TcpBuffer → Outcome (Option (S × Connection D)) = λ (d, b).
        let c' = record c { read_buffer = b } in
        if succeeded d
        then (deliver decode succeeded reply_key dispatch d s c' >>= λ (s', c'').
            execute decode succeeded reply_key dispatch n s' c'')
        else ok (some (s, c')) in
      if_Ends (leb_ℤ (readable c.read_buffer) (pos 0)) (ok (some (s, c)))
        (decode c.read_buffer >>= finish) (λ e. tt)
        (λ more. Ends-after (decode c.read_buffer) finish (λ (d, b) e.
          let c' = record c { read_buffer = b } in
          if_Ends (succeeded d)
            (deliver decode succeeded reply_key dispatch d s c' >>= λ (s', c'').
              execute decode succeeded reply_key dispatch n s' c'')
            (ok (some (s, c')))
            (λ good.
              let (v', l') = h.shorter c.read_buffer d b v e good in
              Ends-after (deliver decode succeeded reply_key dispatch d s c')
                (λ (s', c''). execute decode succeeded reply_key dispatch n s' c'')
                (λ (s', c'') f.
                  let same = deliver-read_buffer h d s c' s' c'' f in
                  execute-Ends h n s' c'' (subst IsValid (sym same) v')
                    (omega (arith, ap (λ q. length (contents q)) same))))
            (λ bad. tt)))
