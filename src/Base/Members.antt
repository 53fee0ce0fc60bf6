-- ===== src/Base/Members.antt =====
-- Membership in a list of numbers as a test.
use Prim.Native.Nat.{ℕ}
use mathlib.Core.Path.{◌≡◌, refl}
use mathlib.Core.Bool.{Bool, true, false, ◌||◌}
use mathlib.Core.List.{List, [], ◌∷◌, ◌++◌}
use native.Mathlib.Omega.{arith}
use se.Base.Tests.{◌==◌}
use se.Base.Lists.{All}

unfoldable pub has : List ℕ → ℕ → Bool
has [] j = false
has (x ∷ xs) j = x == j || has xs j

pub has-append : (xs ys : List ℕ) (j : ℕ) → has (xs ++ ys) j ≡ (has xs j || has ys j)
unfolding has
has-append [] ys j = refl
has-append (x ∷ xs) ys j = ground (arith, has-append xs ys j)

pub has-append_left : (xs ys : List ℕ) (j : ℕ) → has xs j ≡ true → has (xs ++ ys) j ≡ true
has-append_left xs ys j h = ground (arith, has-append xs ys j)

pub has-append_right : (xs ys : List ℕ) (j : ℕ) → has ys j ≡ true → has (xs ++ ys) j ≡ true
has-append_right xs ys j h = ground (arith, has-append xs ys j)

-- What holds of every member holds of the list.
pub All-has : (P : ℕ → Type 0) (xs : List ℕ) → ((j : ℕ) → has xs j ≡ true → P j) → All P xs
unfolding has
All-has P [] h = tt
All-has P (x ∷ xs) h = (h x (ground arith), All-has P xs (λ j e. h j (ground arith)))
