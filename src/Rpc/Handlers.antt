-- ===== src/Rpc/Handlers.antt =====
-- class rpcs (rpc/rpc.h): the handlers that `reg` makes of a method, by the number of its arguments.
-- The result is what `fn` returns and the reply. A variable `R r` holds `blank` before the method
-- sets it, and so does a variable for an argument before it is read.
use se.Base.{Bool, M, pure, ◌>>=◌, if◌then◌else◌}
use se.Rpc.{ℤ, unmarshal_args_failure, Marshall, Unmarshall}
use se.Rpc.Wire.{Wire}

-- class handler
abbrev pub Handler : Type 0 → Type 0
Handler S = Unmarshall → Marshall → M S (ℤ × Marshall)

module _ {S : Type 0} (okdone : Unmarshall → Bool) {R : Type 0} (wr : Wire R) where
  -- What `fn` does once the arguments are read: the method is called, unless the message was too
  -- short or too long.
  unfoldable pub run_method : M S (ℤ × R) → Unmarshall → Marshall → M S (ℤ × Marshall)
  run_method meth args ret =
      if okdone args
      then (do (b, r) ← meth; pure (b, wr.write r ret))
      else pure (unmarshal_args_failure, ret)

  unfoldable pub handle_one : {A1 : Type 0} → Wire A1 → (A1 → R → M S (ℤ × R)) → Handler S
  handle_one w1 meth args ret =
      let (a1, args) = w1.read w1.blank args in run_method (meth a1 wr.blank) args ret

  unfoldable pub handle_two :
      {A1 A2 : Type 0} → Wire A1 → Wire A2 → (A1 → A2 → R → M S (ℤ × R)) → Handler S
  handle_two w1 w2 meth args ret =
      let (a1, args) = w1.read w1.blank args in
      let (a2, args) = w2.read w2.blank args in run_method (meth a1 a2 wr.blank) args ret

  unfoldable pub handle_three :
      {A1 A2 A3 : Type 0}
      → Wire A1
      → Wire A2
      → Wire A3
      → (A1 → A2 → A3 → R → M S (ℤ × R))
      → Handler S
  handle_three w1 w2 w3 meth args ret =
      let (a1, args) = w1.read w1.blank args in
      let (a2, args) = w2.read w2.blank args in
      let (a3, args) = w3.read w3.blank args in run_method (meth a1 a2 a3 wr.blank) args ret

  unfoldable pub handle_four :
      {A1 A2 A3 A4 : Type 0}
      → Wire A1
      → Wire A2
      → Wire A3
      → Wire A4
      → (A1 → A2 → A3 → A4 → R → M S (ℤ × R))
      → Handler S
  handle_four w1 w2 w3 w4 meth args ret =
      let (a1, args) = w1.read w1.blank args in
      let (a2, args) = w2.read w2.blank args in
      let (a3, args) = w3.read w3.blank args in
      let (a4, args) = w4.read w4.blank args in run_method (meth a1 a2 a3 a4 wr.blank) args ret

  unfoldable pub handle_five :
      {A1 A2 A3 A4 A5 : Type 0}
      → Wire A1
      → Wire A2
      → Wire A3
      → Wire A4
      → Wire A5
      → (A1 → A2 → A3 → A4 → A5 → R → M S (ℤ × R))
      → Handler S
  handle_five w1 w2 w3 w4 w5 meth args ret =
      let (a1, args) = w1.read w1.blank args in
      let (a2, args) = w2.read w2.blank args in
      let (a3, args) = w3.read w3.blank args in
      let (a4, args) = w4.read w4.blank args in
      let (a5, args) = w5.read w5.blank args in run_method (meth a1 a2 a3 a4 a5 wr.blank) args ret

  unfoldable pub handle_six :
      {A1 A2 A3 A4 A5 A6 : Type 0}
      → Wire A1
      → Wire A2
      → Wire A3
      → Wire A4
      → Wire A5
      → Wire A6
      → (A1 → A2 → A3 → A4 → A5 → A6 → R → M S (ℤ × R))
      → Handler S
  handle_six w1 w2 w3 w4 w5 w6 meth args ret =
      let (a1, args) = w1.read w1.blank args in
      let (a2, args) = w2.read w2.blank args in
      let (a3, args) = w3.read w3.blank args in
      let (a4, args) = w4.read w4.blank args in
      let (a5, args) = w5.read w5.blank args in
      let (a6, args) = w6.read w6.blank args in
      run_method (meth a1 a2 a3 a4 a5 a6 wr.blank) args ret

  unfoldable pub handle_seven :
      {A1 A2 A3 A4 A5 A6 A7 : Type 0}
      → Wire A1
      → Wire A2
      → Wire A3
      → Wire A4
      → Wire A5
      → Wire A6
      → Wire A7
      → (A1 → A2 → A3 → A4 → A5 → A6 → A7 → R → M S (ℤ × R))
      → Handler S
  handle_seven w1 w2 w3 w4 w5 w6 w7 meth args ret =
      let (a1, args) = w1.read w1.blank args in
      let (a2, args) = w2.read w2.blank args in
      let (a3, args) = w3.read w3.blank args in
      let (a4, args) = w4.read w4.blank args in
      let (a5, args) = w5.read w5.blank args in
      let (a6, args) = w6.read w6.blank args in
      let (a7, args) = w7.read w7.blank args in
      run_method (meth a1 a2 a3 a4 a5 a6 a7 wr.blank) args ret
