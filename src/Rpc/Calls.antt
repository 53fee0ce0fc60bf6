-- ===== src/Rpc/Calls.antt =====
-- class rpcc (rpc/rpc.h): the templates that write the arguments of a call and read its reply.
-- `call1`, which sends a message and waits for the answer, and `okdone` are in a binary. VERIFY(0)
-- ends the process. `memory` is what malloc leaves in the buffer of a new message.
use se.Base.{ℕ, Bytes, Bool, M, pure, fault, ◌>>=◌, if◌then◌else◌}
use se.Rpc.{ℤ, is_negative, Marshall, Unmarshall, new_marshall, empty_unmarshall}
use se.Rpc.Wire.{Wire}

module _ {S : Type 0} (call1 : ℕ → Marshall → Unmarshall → ℕ → M S (ℤ × Unmarshall))
    (okdone : Unmarshall → Bool) where
  -- What follows call1 in rpcc::call_m.
  unfoldable pub read_reply : {R : Type 0} → Wire R → ℤ → R → Unmarshall → M S (ℤ × R)
  read_reply wr intret r u =
      let (r', u') = wr.read r u in
      if is_negative intret
      then pure (intret, r)
      else if okdone u'
      then pure (intret, r')
      else fault

  -- rpcc::call_m
  unfoldable pub call_m : {R : Type 0} → Wire R → ℕ → Marshall → R → ℕ → M S (ℤ × R)
  call_m wr proc req r to = do
    (intret, u) ← call1 proc req empty_unmarshall to
    read_reply wr intret r u

  module _ (memory : Bytes) {R : Type 0} (wr : Wire R) where
    -- rpcc::call, by the number of its arguments
    unfoldable pub call_none : ℕ → R → ℕ → M S (ℤ × R)
    call_none proc r to = let m = new_marshall memory in call_m wr proc m r to

    unfoldable pub call_one : {A1 : Type 0} → Wire A1 → ℕ → A1 → R → ℕ → M S (ℤ × R)
    call_one w1 proc a1 r to =
        let m = new_marshall memory in let m = w1.write a1 m in call_m wr proc m r to

    unfoldable pub call_two :
        {A1 A2 : Type 0} → Wire A1 → Wire A2 → ℕ → A1 → A2 → R → ℕ → M S (ℤ × R)
    call_two w1 w2 proc a1 a2 r to =
        let m = new_marshall memory in
        let m = w1.write a1 m in let m = w2.write a2 m in call_m wr proc m r to

    unfoldable pub call_three :
        {A1 A2 A3 : Type 0} → Wire A1 → Wire A2 → Wire A3 → ℕ → A1 → A2 → A3 → R → ℕ → M S (ℤ × R)
    call_three w1 w2 w3 proc a1 a2 a3 r to =
        let m = new_marshall memory in
        let m = w1.write a1 m in
        let m = w2.write a2 m in let m = w3.write a3 m in call_m wr proc m r to

    unfoldable pub call_four :
        {A1 A2 A3 A4 : Type 0}
        → Wire A1
        → Wire A2
        → Wire A3
        → Wire A4
        → ℕ
        → A1
        → A2
        → A3
        → A4
        → R
        → ℕ
        → M S (ℤ × R)
    call_four w1 w2 w3 w4 proc a1 a2 a3 a4 r to =
        let m = new_marshall memory in
        let m = w1.write a1 m in
        let m = w2.write a2 m in
        let m = w3.write a3 m in let m = w4.write a4 m in call_m wr proc m r to

    unfoldable pub call_five :
        {A1 A2 A3 A4 A5 : Type 0}
        → Wire A1
        → Wire A2
        → Wire A3
        → Wire A4
        → Wire A5
        → ℕ
        → A1
        → A2
        → A3
        → A4
        → A5
        → R
        → ℕ
        → M S (ℤ × R)
    call_five w1 w2 w3 w4 w5 proc a1 a2 a3 a4 a5 r to =
        let m = new_marshall memory in
        let m = w1.write a1 m in
        let m = w2.write a2 m in
        let m = w3.write a3 m in
        let m = w4.write a4 m in let m = w5.write a5 m in call_m wr proc m r to

    unfoldable pub call_six :
        {A1 A2 A3 A4 A5 A6 : Type 0}
        → Wire A1
        → Wire A2
        → Wire A3
        → Wire A4
        → Wire A5
        → Wire A6
        → ℕ
        → A1
        → A2
        → A3
        → A4
        → A5
        → A6
        → R
        → ℕ
        → M S (ℤ × R)
    call_six w1 w2 w3 w4 w5 w6 proc a1 a2 a3 a4 a5 a6 r to =
        let m = new_marshall memory in
        let m = w1.write a1 m in
        let m = w2.write a2 m in
        let m = w3.write a3 m in
        let m = w4.write a4 m in
        let m = w5.write a5 m in let m = w6.write a6 m in call_m wr proc m r to

    unfoldable pub call_seven :
        {A1 A2 A3 A4 A5 A6 A7 : Type 0}
        → Wire A1
        → Wire A2
        → Wire A3
        → Wire A4
        → Wire A5
        → Wire A6
        → Wire A7
        → ℕ
        → A1
        → A2
        → A3
        → A4
        → A5
        → A6
        → A7
        → R
        → ℕ
        → M S (ℤ × R)
    call_seven w1 w2 w3 w4 w5 w6 w7 proc a1 a2 a3 a4 a5 a6 a7 r to =
        let m = new_marshall memory in
        let m = w1.write a1 m in
        let m = w2.write a2 m in
        let m = w3.write a3 m in
        let m = w4.write a4 m in
        let m = w5.write a5 m in
        let m = w6.write a6 m in let m = w7.write a7 m in call_m wr proc m r to
