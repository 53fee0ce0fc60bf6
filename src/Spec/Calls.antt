-- ===== src/Spec/Calls.antt =====
-- The calls of an extent client as steps on the table of files.
use se.Base.{
  ℕ, ◌^◌, ◌≤◌, ◌<◌, ◌≡◌, ap, ◌∙◌, subst, sym, Bytes, List, [], ◌∷◌, some, none, M, pure, ◌>>=◌,
  length, arith, some_inj,
}
use se.InodeManager.{Attr}
use se.Extent.{Status, ExtentClient}
use se.Spec.{File, Files, put_file, type_of, size_of, Laws}

pub data Call : Type 0 where
  create : ℕ → Call
  get getattr remove : ℕ → Call
  put : ℕ → Bytes → Call

pub data Answer : Type 0 where
  number : Status → ℕ → Answer
  bytes : Status → Bytes → Answer
  attributes : Status → ℕ → ℕ → Answer
  done : Status → Answer

-- What a call does to the table of files, and what it answers. The number of a new file is left
-- open, as long as no file has it.
pub data Step : Files → Call → Answer → Files → Type 0 where
  creates :
      (v : Files) (type id : ℕ)
      → v id ≡ none
      → Step v
          (Call.create type)
          (Answer.number Status.ok id)
          (put_file v id (some (record { type = type; content = [] })))
  gets :
      (v : Files) (id : ℕ) (f : File)
      → v id ≡ some f
      → Step v (Call.get id) (Answer.bytes Status.ok f.content) v
  tells :
      (v : Files) (id : ℕ)
      → Step v (Call.getattr id) (Answer.attributes Status.ok (type_of (v id)) (size_of (v id))) v
  puts :
      (v : Files) (id : ℕ) (f : File) (buf : Bytes)
      → v id ≡ some f
      → Step v
          (Call.put id buf)
          (Answer.done Status.ok)
          (put_file v id (some (record f { content = buf })))
  removes :
      (v : Files) (id : ℕ) (f : File)
      → v id ≡ some f
      → Step v (Call.remove id) (Answer.done Status.ok) (put_file v id none)

-- Several calls, one after the other.
pub data Steps : Files → List Call → List Answer → Files → Type 0 where
  stop : (v : Files) → Steps v [] [] v
  next :
      {v w x : Files} {c : Call} {a : Answer} {cs : List Call} {answers : List Answer}
      → Step v c a w
      → Steps w cs answers x
      → Steps v (c ∷ cs) (a ∷ answers) x

module _ (ec : ExtentClient) where
  open ec use {State}

  -- A call of the client.
  unfoldable pub call : Call → M State Answer
  call (create type) = do (r, id) ← ec.create type; pure (Answer.number r id)
  call (get id) = do (r, b) ← ec.get id; pure (Answer.bytes r b)
  call (getattr id) = do (r, a) ← ec.getattr id; pure (Answer.attributes r a.type a.size)
  call (remove id) = do r ← ec.remove id; pure (Answer.done r)
  call (put id buf) = do r ← ec.put id buf; pure (Answer.done r)

  create_step :
      (s : State) (type : ℕ) {id : ℕ} {r : Status} {t : State}
      → ec.create type s ≡ some ((r, id), t)
      → call (Call.create type) s ≡ some (Answer.number r id, t)
  unfolding call
  create_step s type e = ground arith

  get_step :
      (s : State) (id : ℕ) {b : Bytes} {r : Status} {t : State}
      → ec.get id s ≡ some ((r, b), t)
      → call (Call.get id) s ≡ some (Answer.bytes r b, t)
  unfolding call
  get_step s id e = ground arith

  getattr_step :
      (s : State) (id : ℕ) {a : Attr} {r : Status} {t : State} {k n : ℕ}
      → a.type ≡ k
      → a.size ≡ n
      → ec.getattr id s ≡ some ((r, a), t)
      → call (Call.getattr id) s ≡ some (Answer.attributes r k n, t)
  unfolding call
  getattr_step s id p q e = ground arith

  remove_step :
      (s : State) (id : ℕ) {r : Status} {t : State}
      → ec.remove id s ≡ some (r, t)
      → call (Call.remove id) s ≡ some (Answer.done r, t)
  unfolding call
  remove_step s id e = ground arith

  put_step :
      (s : State) (id : ℕ) (buf : Bytes) {r : Status} {t : State}
      → ec.put id buf s ≡ some (r, t)
      → call (Call.put id buf) s ≡ some (Answer.done r, t)
  unfolding call
  put_step s id buf e = ground arith

  module _ (laws : Laws ec) where
    open laws use {IsGood, view, room, slots, cost, max_len}

    -- The file is there, the string fits, and there are numbers left.
    unfoldable pub IsAllowed : State → Call → Type 0
    IsAllowed s (create type) = (0 < slots s) × (0 < type) × (type < 2 ^ 15)
    IsAllowed s (get id) = (f : File) × (view s id ≡ some f)
    IsAllowed s (getattr id) = id < 2 ^ 31
    IsAllowed s (remove id) = (f : File) × (view s id ≡ some f)
    IsAllowed s (put id buf) =
        (f : File) × (view s id ≡ some f) × (length buf ≤ max_len) × (cost (length buf) ≤ room s)

    -- What an allowed call does.
    pub record Does (s : State) (c : Call) : Type 0 where
      pub state : State
      pub answer : Answer
      pub runs : call c s ≡ some (answer, state)
      pub good : IsGood state
      pub step : Step (view s) c answer (view state)

    pub call-Does : (s : State) (c : Call) → IsGood s → IsAllowed s c → Does s c
    unfolding IsAllowed
    call-Does s (create type) g (left, positive, small) =
        let (t, id, e, good, _, unused, files, _, _) =
          laws.create_law s type g left positive small in
        record {
          state = t;
          answer = _;
          runs = create_step s type e;
          good = good;
          step =
              subst (Step (view s) (Call.create type) (Answer.number Status.ok id)) (sym files)
                (Step.creates (view s) type id unused);
        }
    call-Does s (get id) g (f, here) =
        let (t, e, good, files, _, _) = laws.get_law s id f g here in
        record {
          state = t;
          answer = _;
          runs = get_step s id e;
          good = good;
          step =
              subst (Step (view s) (Call.get id) (Answer.bytes Status.ok f.content)) (sym files)
                (Step.gets (view s) id f here);
        }
    call-Does s (getattr id) g low =
        let (t, a, e, type, size, good, files, _, _) = laws.getattr_law s id g low in
        record {
          state = t;
          answer = _;
          runs = getattr_step s id type size e;
          good = good;
          step = subst (Step (view s) (Call.getattr id) _) (sym files) (Step.tells (view s) id);
        }
    call-Does s (remove id) g (f, here) =
        let (t, e, good, files, _, _) = laws.remove_law s id f g here in
        record {
          state = t;
          answer = _;
          runs = remove_step s id e;
          good = good;
          step =
              subst (Step (view s) (Call.remove id) (Answer.done Status.ok)) (sym files)
                (Step.removes (view s) id f here);
        }
    call-Does s (put id buf) g (f, here, small, fits) =
        let (t, e, good, files, _, _) = laws.put_law s id f buf g here small fits in
        record {
          state = t;
          answer = _;
          runs = put_step s id buf e;
          good = good;
          step =
              subst (Step (view s) (Call.put id buf) (Answer.done Status.ok)) (sym files)
                (Step.puts (view s) id f buf here);
        }

    -- A sequence of allowed calls.
    pub data Runs : State → List Call → List Answer → State → Type 0 where
      stop : (s : State) → Runs s [] [] s
      next :
          {s t u : State} {c : Call} {a : Answer} {cs : List Call} {answers : List Answer}
          → IsAllowed s c
          → call c s ≡ some (a, t)
          → Runs t cs answers u
          → Runs s (c ∷ cs) (a ∷ answers) u

    -- What `call-Does` says holds of whatever the call gives.
    call_unique :
        (s t : State) (c : Call) (a : Answer)
        → Does s c
        → call c s ≡ some (a, t)
        → IsGood t × Step (view s) c a (view t)
    call_unique s t c a d e =
        let same : (d.answer, d.state) ≡ (a, t) = some_inj (sym d.runs ∙ e) in
        (
          subst IsGood (ap (λ p. p.1) same) d.good,
          subst (λ p. Step (view s) c p.0 (view p.1)) same d.step,
        )

    -- Every sequence of allowed calls keeps the state in order, and its answers and its effect are
    -- those of the same calls on the table of files.
    pub Runs-Steps :
        {s t : State} {cs : List Call} {answers : List Answer}
        → IsGood s
        → Runs s cs answers t
        → IsGood t × Steps (view s) cs answers (view t)
    Runs-Steps g (stop s) = (g, Steps.stop (view s))
    Runs-Steps g (next {s} {t} {u} {c} {a} allowed e rest) =
        let (good, step) = call_unique s t c a (call-Does s c g allowed) e in
        let (last, steps) = Runs-Steps good rest in (last, Steps.next step steps)
