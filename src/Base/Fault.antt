-- ===== src/Base/Fault.antt =====
-- Stateful code that can fault: `none` is undefined behaviour or an exception that nobody catches
-- (an access outside an array, a null pointer, `std::out_of_range`), which ends the process.
use mathlib.Core.Bool.{Bool, true, false}
use mathlib.Core.Path.{◌≡◌, refl}
use native.Mathlib.Omega.{arith}
use mathlib.Core.Option.{Option, none, some}

abbrev pub M : Type 0 → Type 0 → Type 0
M S A = S → Option (A × S)

module _ {S A : Type 0} where
  abbrev pub pure : A → M S A
  pure a s = some (a, s)

  abbrev pub fault : M S A
  fault s = none

  abbrev pub gets : (S → A) → M S A
  gets f s = some (f s, s)

abbrev pub modify : {S : Type 0} → (S → S) → M S (Unit {0})
modify f s = some (tt, f s)

-- Goes on if the test holds.
abbrev pub guard : {S : Type 0} → Bool → M S (Unit {0})
guard true s = some (tt, s)
guard false s = none

infixl 5 ◌>>=◌ ◌>>◌
abbrev pub ◌>>=◌ : {S A B : Type 0} → M S A → (A → M S B) → M S B
◌>>=◌ m f s = elim (m s) [ none ↦ none | some (a, s') ↦ f a s' ]

abbrev pub ◌>>◌ : {S B : Type 0} → M S (Unit {0}) → M S B → M S B
m >> k = m >>= λ _. k

module _ {S A B : Type 0} where
  -- A step that does not fault hands its result and state on.
  pub >>=-some :
      (m : M S A) (f : A → M S B) {s t : S} {a : A} → m s ≡ some (a, t) → (m >>= f) s ≡ f a t
  >>=-some m f e = ground (arith, e)

  -- A step before one that does not fault does not fault.
  pub >>=-eq-some :
      (m : M S A) (f : A → M S B) (s : S) {r : B × S}
      → (m >>= f) s ≡ some r
      → (a : A) × (t : S) × (m s ≡ some (a, t)) × (f a t ≡ some r)
  >>=-eq-some m f s {r} e = go (m s) refl e
    where
      go :
          (o : Option (A × S))
          → m s ≡ o
          → (elim o [ none ↦ none | some (a, t) ↦ f a t ]) ≡ some r
          → (a : A) × (t : S) × (m s ≡ some (a, t)) × (f a t ≡ some r)
      go none h e' = cc
      go (some (a, t)) h e' = (a, t, h, e')

pub guard_holds : {S : Type 0} (b : Bool) (s : S) {r : Unit {0} × S} → guard b s ≡ some r → b ≡ true
guard_holds true s e = refl
guard_holds false s e = cc
