-- ===== src/Rpc/Arguments.antt =====
-- Remote calls with several arguments are remote calls with one tuple of arguments.
use se.Base.{ℕ, ◌≤◌, ◌≡◌, Bytes, Bool, false, some, M, length}
use se.Rpc.{ℤ, is_negative, Marshall, Unmarshall, header_size}
use se.Rpc.Wire.{Wire, WireLaws, both, both_laws}
use se.Rpc.Calls.{call_one, call_two, call_three, call_four, call_five, call_six, call_seven}
use se.Rpc.Handlers.{
  handle_one, handle_two, handle_three, handle_four, handle_five, handle_six, handle_seven,
}
use se.Rpc.Transparency.{Delivers, SaysDone, call_one-handle_one}

module _ {S : Type 0} (call1 : ℕ → Marshall → Unmarshall → ℕ → M S (ℤ × Unmarshall))
    (okdone : Unmarshall → Bool) {R : Type 0} {wr : Wire R} (lr : WireLaws wr) (memory : Bytes)
    (proc to : ℕ) where
  -- With two arguments: the remote call gives what the method gives. The library delivers the
  -- messages, arguments and result can be carried, the method answers with no negative number, and
  -- the caller's variable is as it was made.
  pub call_two-handle_two :
      {A1 A2 : Type 0} {w1 : Wire A1} {w2 : Wire A2} (l1 : WireLaws w1) (l2 : WireLaws w2)
      (meth : A1 → A2 → R → M S (ℤ × R)) (a1 : A1) (a2 : A2) (b : ℤ) (r : R) (s t : S)
      → SaysDone okdone
      → Delivers call1 proc (handle_two okdone wr w1 w2 meth)
      → header_size ≤ length memory
      → l1.Fits a1
      → l2.Fits a2
      → lr.Fits r
      → is_negative b ≡ false
      → meth a1 a2 wr.blank s ≡ some ((b, r), t)
      → call_two call1 okdone memory wr w1 w2 proc a1 a2 wr.blank to s ≡ some ((b, r), t)
  unfolding call_two call_one handle_two handle_one both both_laws
  call_two-handle_two l1 l2 meth a1 a2 b r s t done d room f1 f2 fits sign e =
      call_one-handle_one call1 okdone lr (both_laws l1 l2) memory (λ a r. meth a.0 a.1 r) proc to
        (a1, a2) b r s t done d room (f1, f2) fits sign e

  -- With three arguments: the remote call gives what the method gives. The library delivers the
  -- messages, arguments and result can be carried, the method answers with no negative number, and
  -- the caller's variable is as it was made.
  pub call_three-handle_three :
      {A1 A2 A3 : Type 0} {w1 : Wire A1} {w2 : Wire A2} {w3 : Wire A3} (l1 : WireLaws w1)
      (l2 : WireLaws w2) (l3 : WireLaws w3) (meth : A1 → A2 → A3 → R → M S (ℤ × R)) (a1 : A1)
      (a2 : A2) (a3 : A3) (b : ℤ) (r : R) (s t : S)
      → SaysDone okdone
      → Delivers call1 proc (handle_three okdone wr w1 w2 w3 meth)
      → header_size ≤ length memory
      → l1.Fits a1
      → l2.Fits a2
      → l3.Fits a3
      → lr.Fits r
      → is_negative b ≡ false
      → meth a1 a2 a3 wr.blank s ≡ some ((b, r), t)
      → call_three call1 okdone memory wr w1 w2 w3 proc a1 a2 a3 wr.blank to s ≡ some ((b, r), t)
  unfolding call_three call_one handle_three handle_one both both_laws
  call_three-handle_three l1 l2 l3 meth a1 a2 a3 b r s t done d room f1 f2 f3 fits sign e =
      call_one-handle_one call1 okdone lr (both_laws l1 (both_laws l2 l3)) memory
        (λ a r. meth a.0 a.1.0 a.1.1 r) proc to (a1, (a2, a3)) b r s t done d room (f1, (f2, f3))
        fits sign e

  -- With four arguments: the remote call gives what the method gives. The library delivers the
  -- messages, arguments and result can be carried, the method answers with no negative number, and
  -- the caller's variable is as it was made.
  pub call_four-handle_four :
      {A1 A2 A3 A4 : Type 0} {w1 : Wire A1} {w2 : Wire A2} {w3 : Wire A3} {w4 : Wire A4}
      (l1 : WireLaws w1) (l2 : WireLaws w2) (l3 : WireLaws w3) (l4 : WireLaws w4)
      (meth : A1 → A2 → A3 → A4 → R → M S (ℤ × R)) (a1 : A1) (a2 : A2) (a3 : A3) (a4 : A4) (b : ℤ)
      (r : R) (s t : S)
      → SaysDone okdone
      → Delivers call1 proc (handle_four okdone wr w1 w2 w3 w4 meth)
      → header_size ≤ length memory
      → l1.Fits a1
      → l2.Fits a2
      → l3.Fits a3
      → l4.Fits a4
      → lr.Fits r
      → is_negative b ≡ false
      → meth a1 a2 a3 a4 wr.blank s ≡ some ((b, r), t)
      → call_four call1 okdone memory wr w1 w2 w3 w4 proc a1 a2 a3 a4 wr.blank to s
        ≡ some ((b, r), t)
  unfolding call_four call_one handle_four handle_one both both_laws
  call_four-handle_four l1 l2 l3 l4 meth a1 a2 a3 a4 b r s t done d room f1 f2 f3 f4 fits sign e =
      call_one-handle_one call1 okdone lr (both_laws l1 (both_laws l2 (both_laws l3 l4))) memory
        (λ a r. meth a.0 a.1.0 a.1.1.0 a.1.1.1 r) proc to (a1, (a2, (a3, a4))) b r s t done d room
        (f1, (f2, (f3, f4))) fits sign e

  -- With five arguments: the remote call gives what the method gives. The library delivers the
  -- messages, arguments and result can be carried, the method answers with no negative number, and
  -- the caller's variable is as it was made.
  pub call_five-handle_five :
      {A1 A2 A3 A4 A5 : Type 0} {w1 : Wire A1} {w2 : Wire A2} {w3 : Wire A3} {w4 : Wire A4}
      {w5 : Wire A5} (l1 : WireLaws w1) (l2 : WireLaws w2) (l3 : WireLaws w3) (l4 : WireLaws w4)
      (l5 : WireLaws w5) (meth : A1 → A2 → A3 → A4 → A5 → R → M S (ℤ × R)) (a1 : A1) (a2 : A2)
      (a3 : A3) (a4 : A4) (a5 : A5) (b : ℤ) (r : R) (s t : S)
      → SaysDone okdone
      → Delivers call1 proc (handle_five okdone wr w1 w2 w3 w4 w5 meth)
      → header_size ≤ length memory
      → l1.Fits a1
      → l2.Fits a2
      → l3.Fits a3
      → l4.Fits a4
      → l5.Fits a5
      → lr.Fits r
      → is_negative b ≡ false
      → meth a1 a2 a3 a4 a5 wr.blank s ≡ some ((b, r), t)
      → call_five call1 okdone memory wr w1 w2 w3 w4 w5 proc a1 a2 a3 a4 a5 wr.blank to s
        ≡ some ((b, r), t)
  unfolding call_five call_one handle_five handle_one both both_laws
  call_five-handle_five l1 l2 l3 l4 l5 meth a1 a2 a3 a4 a5 b r s t done d room f1 f2 f3 f4 f5 fits
        sign e =
      call_one-handle_one call1 okdone lr
        (both_laws l1 (both_laws l2 (both_laws l3 (both_laws l4 l5)))) memory
        (λ a r. meth a.0 a.1.0 a.1.1.0 a.1.1.1.0 a.1.1.1.1 r) proc to (a1, (a2, (a3, (a4, a5)))) b r
        s t done d room (f1, (f2, (f3, (f4, f5)))) fits sign e

  -- With six arguments: the remote call gives what the method gives. The library delivers the
  -- messages, arguments and result can be carried, the method answers with no negative number, and
  -- the caller's variable is as it was made.
  pub call_six-handle_six :
      {A1 A2 A3 A4 A5 A6 : Type 0} {w1 : Wire A1} {w2 : Wire A2} {w3 : Wire A3} {w4 : Wire A4}
      {w5 : Wire A5} {w6 : Wire A6} (l1 : WireLaws w1) (l2 : WireLaws w2) (l3 : WireLaws w3)
      (l4 : WireLaws w4) (l5 : WireLaws w5) (l6 : WireLaws w6)
      (meth : A1 → A2 → A3 → A4 → A5 → A6 → R → M S (ℤ × R)) (a1 : A1) (a2 : A2) (a3 : A3) (a4 : A4)
      (a5 : A5) (a6 : A6) (b : ℤ) (r : R) (s t : S)
      → SaysDone okdone
      → Delivers call1 proc (handle_six okdone wr w1 w2 w3 w4 w5 w6 meth)
      → header_size ≤ length memory
      → l1.Fits a1
      → l2.Fits a2
      → l3.Fits a3
      → l4.Fits a4
      → l5.Fits a5
      → l6.Fits a6
      → lr.Fits r
      → is_negative b ≡ false
      → meth a1 a2 a3 a4 a5 a6 wr.blank s ≡ some ((b, r), t)
      → call_six call1 okdone memory wr w1 w2 w3 w4 w5 w6 proc a1 a2 a3 a4 a5 a6 wr.blank to s
        ≡ some ((b, r), t)
  unfolding call_six call_one handle_six handle_one both both_laws
  call_six-handle_six l1 l2 l3 l4 l5 l6 meth a1 a2 a3 a4 a5 a6 b r s t done d room f1 f2 f3 f4 f5 f6
        fits sign e =
      call_one-handle_one call1 okdone lr
        (both_laws l1 (both_laws l2 (both_laws l3 (both_laws l4 (both_laws l5 l6))))) memory
        (λ a r. meth a.0 a.1.0 a.1.1.0 a.1.1.1.0 a.1.1.1.1.0 a.1.1.1.1.1 r) proc to
        (a1, (a2, (a3, (a4, (a5, a6))))) b r s t done d room (f1, (f2, (f3, (f4, (f5, f6))))) fits
        sign e

  -- With seven arguments: the remote call gives what the method gives. The library delivers the
  -- messages, arguments and result can be carried, the method answers with no negative number, and
  -- the caller's variable is as it was made.
  pub call_seven-handle_seven :
      {A1 A2 A3 A4 A5 A6 A7 : Type 0} {w1 : Wire A1} {w2 : Wire A2} {w3 : Wire A3} {w4 : Wire A4}
      {w5 : Wire A5} {w6 : Wire A6} {w7 : Wire A7} (l1 : WireLaws w1) (l2 : WireLaws w2)
      (l3 : WireLaws w3) (l4 : WireLaws w4) (l5 : WireLaws w5) (l6 : WireLaws w6) (l7 : WireLaws w7)
      (meth : A1 → A2 → A3 → A4 → A5 → A6 → A7 → R → M S (ℤ × R)) (a1 : A1) (a2 : A2) (a3 : A3)
      (a4 : A4) (a5 : A5) (a6 : A6) (a7 : A7) (b : ℤ) (r : R) (s t : S)
      → SaysDone okdone
      → Delivers call1 proc (handle_seven okdone wr w1 w2 w3 w4 w5 w6 w7 meth)
      → header_size ≤ length memory
      → l1.Fits a1
      → l2.Fits a2
      → l3.Fits a3
      → l4.Fits a4
      → l5.Fits a5
      → l6.Fits a6
      → l7.Fits a7
      → lr.Fits r
      → is_negative b ≡ false
      → meth a1 a2 a3 a4 a5 a6 a7 wr.blank s ≡ some ((b, r), t)
      → call_seven call1 okdone memory wr w1 w2 w3 w4 w5 w6 w7 proc a1 a2 a3 a4 a5 a6 a7 wr.blank to
          s
        ≡ some ((b, r), t)
  unfolding call_seven call_one handle_seven handle_one both both_laws
  call_seven-handle_seven l1 l2 l3 l4 l5 l6 l7 meth a1 a2 a3 a4 a5 a6 a7 b r s t done d room f1 f2
        f3 f4 f5 f6 f7 fits sign e =
      call_one-handle_one call1 okdone lr
        (both_laws l1 (both_laws l2 (both_laws l3 (both_laws l4 (both_laws l5 (both_laws l6 l7))))))
        memory (λ a r. meth a.0 a.1.0 a.1.1.0 a.1.1.1.0 a.1.1.1.1.0 a.1.1.1.1.1.0 a.1.1.1.1.1.1 r)
        proc to (a1, (a2, (a3, (a4, (a5, (a6, a7)))))) b r s t done d room
        (f1, (f2, (f3, (f4, (f5, (f6, f7)))))) fits sign e
