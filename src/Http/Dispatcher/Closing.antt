-- ===== src/Http/Dispatcher/Closing.antt =====
-- Requests of HTTP/1.0, and the servlets that have seen one.
use tirpc.Buffer.{readable}
use tirpc.Connection.{
  is_connected, is_zero, wrote, Connection, connected, half_closing, Sent, shutdown_connection,
  output_loop, output,
}
use tirpc.Http.{HttpRequest, HttpResponse, encode}
use tirpc.Http.Dispatcher.{HttpDispatcher, new_response, choose, serve, dispatch}
use tirpc.Http.Servlet.{set_comm_param, handle}
use tirpc.MsgReq.{is_empty}
use tirpc.Prelude.{
  ℕ, Bool, true, false, List, [], ◌∷◌, some, ==_iff, if◌then◌else◌, ℤ, Outcome, ok, fault, throws,
  ◌>>=◌, Bytes, ◌≡◌, refl, ap, subst, ◌⊎◌, arith, not, ◌||◌, if_true, if_both, same_text, codes,
}

-- Output sends nothing for a connection that is half closed.
output_shut :
    {D : Type 0} (script : List Sent) (c : Connection D)
    → c.state ≡ half_closing
    → output script c ≡ ok (record { connection = c; ended = true; sent = [] })
unfolding output output_loop
output_shut [] c e =
    let not_open : (not (is_connected c.state) || is_zero (readable c.write_buffer)) ≡ true =
      ap (λ s. not (is_connected s) || is_zero (readable c.write_buffer)) e in
    if_both c.is_over_time (wrote true [] c)
      (wrote (not (is_connected c.state) || is_zero (readable c.write_buffer)) [] c)
      (wrote true [] c) refl (ap (λ b. wrote b [] c) not_open)
output_shut (s ∷ script) c e =
    let not_open : (not (is_connected c.state) || is_zero (readable c.write_buffer)) ≡ true =
      ap (λ s. not (is_connected s) || is_zero (readable c.write_buffer)) e in
    if_both c.is_over_time (wrote true [] c) _ (wrote true [] c) refl (
      if_true (not (is_connected c.state) || is_zero (readable c.write_buffer)) (wrote true [] c) _
        not_open)

shut_if :
    {D : Type 0} (b : Bool) (c : Connection D)
    → b ≡ true
    → c.state ≡ connected
    → (if b then shutdown_connection c else c).state ≡ half_closing
unfolding shutdown_connection
shut_if true c h e = rw e refl
shut_if false c h e = ground arith

module _ (fnmatch : Bytes → Bytes → Bool)
    (handle_get handle_post : ℕ → HttpRequest → HttpResponse → HttpResponse) (garbage : ℤ) where
  -- The connection is half closed, and the servlet will close the next one too.
  abbrev pub Shuts : ℕ → Outcome (HttpDispatcher × Connection HttpRequest) → Type 0
  Shuts i (ok (s, c)) = (c.state ≡ half_closing) × (s.is_close i ≡ true)
  Shuts i fault = Unit
  Shuts i throws = Unit

  handle-closes :
      (req : HttpRequest) (res : HttpResponse) (i : ℕ) (b : Bool)
      → (same_text req.request_version (codes "HTTP/1.0") ≡ true) ⊎ (b ≡ true)
      → (handle (handle_get i) (handle_post i) req res b).1 ≡ true
  unfolding handle
  handle-closes req res i b h = ground arith

  Shuts-after :
      {A : Type 0} (i : ℕ) (m : Outcome A)
      (f : A → Outcome (HttpDispatcher × Connection HttpRequest))
      → ((a : A) → Shuts i (f a))
      → Shuts i (m >>= f)
  Shuts-after i (ok a) f h = h a
  Shuts-after i fault f h = tt
  Shuts-after i throws f h = tt

  serve-Shuts :
      (i : ℕ) (req : HttpRequest) (res : HttpResponse) (s : HttpDispatcher)
      (c : Connection HttpRequest)
      → (same_text req.request_version (codes "HTTP/1.0") ≡ true) ⊎ (s.is_close i ≡ true)
      → c.state ≡ connected
      → Shuts i (serve fnmatch handle_get handle_post garbage (some i) (req, res) s c)
  unfolding serve
  serve-Shuts i req res s c h e =
      let closes = (handle (handle_get i) (handle_post i) req res (s.is_close i)).1 in
      let closing : closes ≡ true = handle-closes req res i (s.is_close i) h in
      Shuts-after i
        (encode (if closes then shutdown_connection c else c).write_buffer
          (handle (handle_get i) (handle_post i) req res (s.is_close i)).0)
        _ (λ (b, r). (shut_if closes c closing e, rw ((==_iff i i).1 refl) closing))

  dispatch-Shuts :
      (i : ℕ) (req : HttpRequest) (s : HttpDispatcher) (c : Connection HttpRequest)
      → is_empty req.request_path ≡ false
      → choose fnmatch handle_get handle_post garbage req.request_path s ≡ some i
      → (same_text req.request_version (codes "HTTP/1.0") ≡ true) ⊎ (s.is_close i ≡ true)
      → c.state ≡ connected
      → Shuts i (dispatch fnmatch handle_get handle_post garbage req s c)
  unfolding dispatch set_comm_param
  dispatch-Shuts i req s c p at h e =
      let (req', res) = set_comm_param req (new_response garbage) in
      rw (p, at) (serve-Shuts i req' res s c h e)

  -- A request that a servlet has been chosen for, on an open connection, where the version is HTTP/1.0
  -- or the servlet has seen a request of that version before: Dispatch leaves the connection half
  -- closed, so that no call of Output sends a byte of the response, and the servlet does the same to
  -- its next request, whatever the version of that is.
  pub dispatch_unsent :
      (i : ℕ) (req : HttpRequest) (s s' : HttpDispatcher) (c c' : Connection HttpRequest)
      (script : List Sent)
      → is_empty req.request_path ≡ false
      → choose fnmatch handle_get handle_post garbage req.request_path s ≡ some i
      → (same_text req.request_version (codes "HTTP/1.0") ≡ true) ⊎ (s.is_close i ≡ true)
      → c.state ≡ connected
      → dispatch fnmatch handle_get handle_post garbage req s c ≡ ok (s', c')
      → (output script c' ≡ ok (record { connection = c'; ended = true; sent = [] }))
        × (s'.is_close i ≡ true)
  dispatch_unsent i req s s' c c' script p at h e f =
      let (half, again) = subst (Shuts i) f (dispatch-Shuts i req s c p at h e) in
      (output_shut script c' half, again)
