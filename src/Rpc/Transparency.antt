-- ===== src/Rpc/Transparency.antt =====
-- A remote call gives what the method gives, if the library carries messages from rpcc to the
-- handler that rpcs has for the number, and back.
use se.Base.{
  ℕ, ◌≤◌, ◌≡◌, refl, ap, ◌∙◌, sym, append-nil, Bytes, [], ◌++◌, Bool, true, false, arith, some, M,
  length,
}
use se.Rpc.{
  ℤ, is_negative, Marshall, Unmarshall, new_marshall, empty_unmarshall, header_size, get_content,
  remaining,
}
use se.Rpc.Wire.{Wire, WireLaws, IsReady}
use se.Rpc.Calls.{call_m, read_reply, call_one}
use se.Rpc.Handlers.{Handler, run_method, handle_one}

-- The library delivers the messages for a number to a handler: the handler gets the contents of the
-- message and an empty reply, and the caller what the handler returns and the contents of the reply.
pub record Delivers {S : Type 0} (call1 : ℕ → Marshall → Unmarshall → ℕ → M S (ℤ × Unmarshall))
    (proc : ℕ) (fn : Handler S) : Type 0 where
  pub args : Marshall → Unmarshall
  pub ret : Marshall
  pub args_ok : (req : Marshall) → (args req).ok ≡ true
  pub args_content : (req : Marshall) → remaining (args req) ≡ get_content req
  pub ret_ready : IsReady ret
  pub ret_content : get_content ret ≡ []
  pub answer :
      (req : Marshall) (to : ℕ) (b : ℤ) (reply : Marshall) (s t : S)
      → IsReady req
      → IsReady reply
      → fn (args req) ret s ≡ some ((b, reply), t)
      → (u : Unmarshall) × (call1 proc req empty_unmarshall to s ≡ some ((b, u), t))
        × (u.ok ≡ true)
        × (remaining u ≡ get_content reply)

-- `okdone` says yes to a reader that is at its end without an error.
abbrev pub SaysDone : (Unmarshall → Bool) → Type 0
SaysDone okdone = (u : Unmarshall) → u.ok ≡ true → remaining u ≡ [] → okdone u ≡ true

fresh_content : (memory : Bytes) → get_content (new_marshall memory) ≡ []
unfolding get_content
fresh_content memory = refl

module _ {S : Type 0} (call1 : ℕ → Marshall → Unmarshall → ℕ → M S (ℤ × Unmarshall))
    (okdone : Unmarshall → Bool) where
  module _ {R : Type 0} {wr : Wire R} (lr : WireLaws wr) where
    run_step :
        (meth : M S (ℤ × R)) (args : Unmarshall) (ret : Marshall) (s : S) {b : ℤ} {r : R} {t : S}
        → okdone args ≡ true
        → meth s ≡ some ((b, r), t)
        → run_method okdone wr meth args ret s ≡ some ((b, wr.write r ret), t)
    unfolding run_method
    run_step meth args ret s done e = ground (arith, done, e)

    handle_step :
        {A : Type 0} {w : Wire A} (l : WireLaws w) (meth : A → R → M S (ℤ × R)) (args : Unmarshall)
        (ret : Marshall) (s : S) {t : S} {b : ℤ} {r : R} (a : A)
        → SaysDone okdone
        → l.Fits a
        → args.ok ≡ true
        → remaining args ≡ l.bytes a
        → meth a wr.blank s ≡ some ((b, r), t)
        → handle_one okdone wr w meth args ret s ≡ some ((b, wr.write r ret), t)
    unfolding handle_one
    handle_step l meth args ret s {t} {b} {r} a done fits good e m =
        let x = l.read_law a args [] fits good (e ∙ sym (append-nil _)) in
        ap (λ q. run_method okdone wr (meth q.0 wr.blank) q.1 ret s) x.result
        ∙ run_step (meth a wr.blank) x.after ret s (done x.after x.ok x.behind) m

    reply_step :
        (b : ℤ) (u : Unmarshall) (r : R) (s : S)
        → SaysDone okdone
        → is_negative b ≡ false
        → lr.Fits r
        → u.ok ≡ true
        → remaining u ≡ lr.bytes r
        → read_reply call1 okdone wr b wr.blank u s ≡ some ((b, r), s)
    unfolding read_reply
    reply_step b u r s done sign fits good e =
        let x = lr.read_law r u [] fits good (e ∙ sym (append-nil _)) in
        ground (arith, sign, x.result, done x.after x.ok x.behind)

    call_step :
        (proc to : ℕ) (req : Marshall) (s : S) {t : S} {b : ℤ} {r : R} (u : Unmarshall)
        → call1 proc req empty_unmarshall to s ≡ some ((b, u), t)
        → read_reply call1 okdone wr b wr.blank u t ≡ some ((b, r), t)
        → call_m call1 okdone wr proc req wr.blank to s ≡ some ((b, r), t)
    unfolding call_m
    call_step proc to req s u e f = ground (arith, e, f)

    -- A remote call with one argument gives the number and the value that the method gives, and the
    -- server's state moves as the method moves it. The library delivers the messages, argument and
    -- result can be carried, the method answers with no negative number, and the caller's variable
    -- is as it was made.
    pub call_one-handle_one :
        {A : Type 0} {w : Wire A} (l : WireLaws w) (memory : Bytes) (meth : A → R → M S (ℤ × R))
        (proc to : ℕ) (a : A) (b : ℤ) (r : R) (s t : S)
        → SaysDone okdone
        → Delivers call1 proc (handle_one okdone wr w meth)
        → header_size ≤ length memory
        → l.Fits a
        → lr.Fits r
        → is_negative b ≡ false
        → meth a wr.blank s ≡ some ((b, r), t)
        → call_one call1 okdone memory wr w proc a wr.blank to s ≡ some ((b, r), t)
    unfolding call_one
    call_one-handle_one {w = w} l memory meth proc to a b r s t done d room fits fits' sign e =
        let req : Marshall = w.write a (new_marshall memory) in
        let sent = l.write_law a (new_marshall memory) fits (omega arith, room) in
        let content : get_content req ≡ l.bytes a =
          sent.content ∙ ap (λ c. c ++ l.bytes a) (fresh_content memory) in
        let back = lr.write_law r d.ret fits' d.ret_ready in
        let (u, called, good, found) =
          d.answer req to b (wr.write r d.ret) s t sent.ready back.ready (
            handle_step l meth (d.args req) d.ret s a done fits (d.args_ok req)
              (d.args_content req ∙ content) e) in
        call_step proc to req s u called (
          reply_step b u r t done sign fits' good
            (found ∙ back.content ∙ ap (λ c. c ++ lr.bytes r) d.ret_content))
