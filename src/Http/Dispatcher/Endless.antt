-- ===== src/Http/Dispatcher/Endless.antt =====
-- Execute on a server of HTTP whose buffer holds one line.
use tirpc.Buffer.{TcpBuffer, readable}
use tirpc.Buffer.Contents.{IsValid, valid, contents, length-contents}
use tirpc.Connection.{Connection}
use tirpc.Connection.Packages.{deliver, execute}
use tirpc.Http.{HttpMethod, HttpRequest, HttpResponse, gen_data_ptr, crlf}
use tirpc.Http.Dispatcher.{HttpDispatcher, decode_request, dispatch}
use tirpc.Http.Request.{decode_early}
use tirpc.Prelude.{
  ℕ, zero, suc, ◌-◌, ◌<◌, Bool, true, false, ◌++◌, Option, none, pos, leb_ℤ, ℤ, Outcome, ok, Bytes,
  ◌≡◌, refl, ap, if_true, length, length-append, sub_ℕ-pos, arith,
}
use tirpc.StringUtil.Searches.{Without}

abbrev pub no_key : HttpRequest → Option Bytes
no_key r = none

some_readable :
    (b : TcpBuffer) → IsValid b → 0 < length (contents b) → leb_ℤ (readable b) (pos 0) ≡ false
some_readable b (valid r w v h k) l =
    let size = length-contents r w v h k in rw (sub_ℕ-pos w r (w - r) (omega arith)) (ground arith)

module _ (fnmatch : Bytes → Bytes → Bool)
    (handle_get handle_post : ℕ → HttpRequest → HttpResponse → HttpResponse) (code : ℤ)
    (garbage : HttpMethod) where
  abbrev pub serving :
      HttpRequest
      → HttpDispatcher
      → Connection HttpRequest
      → Outcome (HttpDispatcher × Connection HttpRequest)
  serving = dispatch fnmatch handle_get handle_post code

  dropped :
      (s : HttpDispatcher) (c : Connection HttpRequest)
      → c.is_server ≡ true
      → deliver
          (decode_request garbage)
          (λ r. r.decode_succ)
          no_key
          serving
          (record (gen_data_ptr garbage) { decode_succ = true })
          s
          c
        ≡ ok (s, c)
  unfolding deliver dispatch gen_data_ptr
  dropped s c h = if_true c.is_server (ok (s, c)) (ok (s, c)) h

  -- One line and its end in the read buffer of an HTTP server, and nothing behind them, keep Execute
  -- in its loop for ever: each round decodes a request without a path, which Dispatch drops, and takes
  -- nothing out of the buffer.
  pub execute_endless :
      (line : Bytes) (n : ℕ) (s : HttpDispatcher) (c : Connection HttpRequest)
      → IsValid c.read_buffer
      → contents c.read_buffer ≡ line ++ crlf
      → Without 13 line
      → c.is_server ≡ true
      → execute (decode_request garbage) (λ r. r.decode_succ) no_key serving n s c ≡ ok none
  unfolding execute
  execute_endless line zero s c v e w h = refl
  execute_endless line (suc n) s c v e w h =
      let more =
        some_readable c.read_buffer v (omega (arith, ap length e, length-append line crlf)) in
      rw more (
        rw (decode_early line c.read_buffer (gen_data_ptr garbage) v e w)
          (rw (dropped s c h) (execute_endless line n s c v e w h)))
