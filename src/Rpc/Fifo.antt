-- ===== src/Rpc/Fifo.antt =====
-- class fifo (rpc/fifo.h): the queue of jobs between threads. A call holds the lock from its start to
-- its end, but for the time that it waits, so what the threads see of each other is one pass through
-- the loop after the other.
use se.Base.{
  ℕ, ◌≤◌, ◌<◌, ◌≡◌, ◌≢◌, refl, ap, ◌∙◌, sym, List, [], ◌∷◌, ◌++◌, append_assoc, append-nil, Bool,
  true, false, arith, ltb, ◌==◌, ◌||◌, ◌&&◌, not, if◌then◌else◌, Bool-cases, inl, inr, length,
  length-append,
}

-- q_ and max_; no maximum is 0.
pub record Fifo (T : Type 0) : Type 0 where
  pub q : List T
  pub max : ℕ

-- The condition variable that a pass waits for or signals.
pub data Condition : Type 0 where
  non_empty has_space : Condition

-- How a pass ends: the call goes to sleep, or it returns with its result and the signals it gave.
pub data Pass (A : Type 0) : Type 0 where
  waits : Condition → Pass A
  returns : A → List Condition → Pass A

module _ {T : Type 0} where
  -- fifo::fifo
  abbrev pub new_fifo : ℕ → Fifo T
  new_fifo limit = record { q = []; max = limit }

  -- fifo::size, which is declared to return a bool.
  unfoldable pub size : Fifo T → Bool
  size f = not (length f.q == 0)

  -- One pass through the loop of fifo::enq.
  unfoldable pub enq : T → Bool → Fifo T → Pass Bool × Fifo T
  enq e blocking f =
      if f.max == 0 || ltb (length f.q) f.max
      then (Pass.returns true (Condition.non_empty ∷ []), record f { q = f.q ++ e ∷ [] })
      else if blocking
      then (Pass.waits Condition.has_space, f)
      else (Pass.returns false [], f)

  -- What deq signals.
  unfoldable pub space_signal : Fifo T → List Condition
  space_signal f =
      if not (f.max == 0) && ltb (length f.q) f.max then Condition.has_space ∷ [] else []

  deq_from : List T → Fifo T → Pass T × Fifo T
  deq_from [] f = (Pass.waits Condition.non_empty, f)
  deq_from (e ∷ q) f = let g : Fifo T = record f { q = q } in (Pass.returns e (space_signal g), g)

  -- One pass through the loop of fifo::deq.
  unfoldable pub deq : Fifo T → Pass T × Fifo T
  unfolding deq_from
  deq f = deq_from f.q f

  -- The elements that a pass has put in or taken out.
  abbrev pub entered : T → Pass Bool → List T
  entered e (Pass.returns true signals) = e ∷ []
  entered e _ = []

  abbrev pub taken : Pass T → List T
  taken (Pass.returns e signals) = e ∷ []
  taken (Pass.waits c) = []

  -- The passes of all threads, one after the other, from an empty queue, with the elements that came
  -- in and went out.
  pub data Runs (limit : ℕ) : Fifo T → List T → List T → Type 0 where
    start : Runs limit (new_fifo limit) [] []
    enqs :
        {f : Fifo T} {ins outs : List T} (e : T) (blocking : Bool)
        → Runs limit f ins outs
        → Runs limit (enq e blocking f).1 (ins ++ entered e (enq e blocking f).0) outs
    deqs :
        {f : Fifo T} {ins outs : List T}
        → Runs limit f ins outs
        → Runs limit (deq f).1 ins (outs ++ taken (deq f).0)

  -- What holds of the queue at any time.
  pub record IsOrdered (limit : ℕ) (f : Fifo T) (ins outs : List T) : Type 0 where
    pub limited : f.max ≡ limit
    pub bounded : limit ≢ 0 → length f.q ≤ limit
    pub order : ins ≡ outs ++ f.q

  enq-IsOrdered :
      {limit : ℕ} {f : Fifo T} {ins outs : List T} (e : T) (blocking : Bool)
      → IsOrdered limit f ins outs
      → IsOrdered limit (enq e blocking f).1 (ins ++ entered e (enq e blocking f).0) outs
  unfolding enq
  enq-IsOrdered {limit} {f} {ins} {outs} e blocking i =
      elim (Bool-cases (f.max == 0 || ltb (length f.q) f.max)) [
        | inl room ↦ rw room (record {
          limited = i.limited;
          bounded = λ h. ground (arith, room, i.limited, length-append f.q (e ∷ []));
          order = ap (λ l. l ++ e ∷ []) i.order ∙ append_assoc outs f.q (e ∷ []);
        })
        | inr full ↦ elim (Bool-cases blocking) [
          | inl sleeps ↦
              rw (full, sleeps)
                (record {
                  limited = i.limited;
                  bounded = i.bounded;
                  order = append-nil ins ∙ i.order;
                })
          | inr refused ↦
              rw (full, refused)
                (record {
                  limited = i.limited;
                  bounded = i.bounded;
                  order = append-nil ins ∙ i.order;
                })
        ]
      ]

  deq_from-IsOrdered :
      {limit : ℕ} (f : Fifo T) (q : List T) {ins outs : List T}
      → f.q ≡ q
      → IsOrdered limit f ins outs
      → IsOrdered limit (deq_from q f).1 ins (outs ++ taken (deq_from q f).0)
  unfolding deq_from
  deq_from-IsOrdered f [] {ins} {outs} h i = record {
    limited = i.limited;
    bounded = i.bounded;
    order = i.order ∙ ap (λ l. l ++ f.q) (sym (append-nil outs));
  }
  deq_from-IsOrdered f (e ∷ q) {ins} {outs} h i = record {
    limited = i.limited;
    bounded = λ k. omega (arith, i.bounded k, ap length h);
    order = i.order ∙ ap (λ l. outs ++ l) h ∙ sym (append_assoc outs (e ∷ []) q);
  }

  -- In whatever order the calls of the threads come: the elements come out in the order in which they
  -- went in, none gets lost or comes twice, and the queue holds no more than its maximum, if it has
  -- one.
  pub Runs-IsOrdered :
      {limit : ℕ} {f : Fifo T} {ins outs : List T}
      → Runs limit f ins outs
      → IsOrdered limit f ins outs
  unfolding deq
  Runs-IsOrdered start = record { limited = refl; bounded = λ h. omega arith; order = refl }
  Runs-IsOrdered (enqs e blocking r) = enq-IsOrdered e blocking (Runs-IsOrdered r)
  Runs-IsOrdered (deqs {f} r) = deq_from-IsOrdered f f.q refl (Runs-IsOrdered r)

  signals_space :
      (g : Fifo T) → g.max ≢ 0 → length g.q < g.max → space_signal g ≡ Condition.has_space ∷ []
  unfolding space_signal
  signals_space g h k = ground (arith, h, k)

  -- At any time, a thread that takes an element from a queue with a maximum wakes one that waits for
  -- space, and the element is the first that went in and had not come out yet.
  pub deq_wakes :
      {limit : ℕ} {f : Fifo T} {ins outs : List T} (e : T) (q : List T)
      → limit ≢ 0
      → Runs limit f ins outs
      → f.q ≡ e ∷ q
      → ((deq f).0 ≡ Pass.returns e (Condition.has_space ∷ [])) × (ins ≡ (outs ++ e ∷ []) ++ q)
  unfolding deq deq_from space_signal
  deq_wakes {limit} {f} {ins} {outs} e q some_limit r h =
      let i = Runs-IsOrdered r in
      (
        ap (λ l. (deq_from l f).0) h
            ∙ ap (λ c. Pass.returns e c)
                (signals_space (record f { q = q }) (omega (arith, i.limited))
                  (omega (arith, i.bounded some_limit, i.limited, ap length h))),
        i.order ∙ ap (λ l. outs ++ l) h ∙ sym (append_assoc outs (e ∷ []) q),
      )
