-- ===== src/Connection/Packages.antt =====
-- The packages of a connection: Execute, which takes them from the read buffer, and the replies that a
-- client keeps.
use tirpc.Buffer.{TcpBuffer, readable}
use tirpc.Connection.{Connection}
use tirpc.Prelude.{
  ℕ, zero, suc, Bool, List, [], ◌∷◌, Option, none, some, if◌then◌else◌, pos, leb_ℤ, Bytes, Outcome,
  ok, ◌>>=◌, same_text,
}

module _ {D : Type 0} where
  -- GetResPackageData: the reply is handed out once.
  unfoldable pub take_reply : Bytes → List (Bytes × D) → Option D × List (Bytes × D)
  take_reply key [] = (none, [])
  take_reply key ((k, d) ∷ m) =
      let rest = take_reply key m in
      if same_text k key then (some d, m) else (rest.0, (k, d) ∷ rest.1)

  unfoldable pub get_res_package_data : Bytes → Connection D → Option D × Connection D
  unfolding take_reply
  get_res_package_data key c =
      let r = take_reply key c.reply_datas in (r.0, record c { reply_datas = r.1 })

  -- insert() keeps what a key already has.
  unfoldable pub insert_reply : Bytes → D → List (Bytes × D) → List (Bytes × D)
  insert_reply key d [] = (key, d) ∷ []
  insert_reply key d ((k, e) ∷ m) =
      let rest = insert_reply key d m in if same_text k key then (k, e) ∷ m else (k, e) ∷ rest

-- `decode` is the codec's, `succeeded` reads decode_succ, `reply_key` the message number of data of
-- TinyPb, and `dispatch` is the server's dispatcher, which has a state `S`.
module _ {D S : Type 0} (decode : TcpBuffer → Outcome (D × TcpBuffer)) (succeeded : D → Bool)
    (reply_key : D → Option Bytes)
    (dispatch : D → S → Connection D → Outcome (S × Connection D)) where
  unfoldable pub store_reply : D → Option Bytes → Connection D → Connection D
  unfolding insert_reply
  store_reply d none c = c
  store_reply d (some key) c = record c { reply_datas = insert_reply key d c.reply_datas }

  unfoldable pub deliver : D → S → Connection D → Outcome (S × Connection D)
  unfolding store_reply
  deliver d s c = if c.is_server then dispatch d s c else ok (s, store_reply d (reply_key d) c)

  -- The loop of Execute, for at most that many rounds: `none` if it has not ended by then.
  unfoldable pub execute : ℕ → S → Connection D → Outcome (Option (S × Connection D))
  unfolding deliver
  execute zero s c = ok none
  execute (suc n) s c =
      let round = decode c.read_buffer >>= λ (d, b).
      let c' = record c { read_buffer = b } in
      let rest = deliver d s c' >>= λ (s', c''). execute n s' c'' in
      if succeeded d then rest else ok (some (s, c')) in
      if leb_ℤ (readable c.read_buffer) (pos 0) then ok (some (s, c)) else round
