-- ===== src/Base/Bits.antt =====
-- Single bits of a byte, and tables checked by evaluation.
use Prim.Native.Nat.{ℕ, zero, suc, ◌-◌, ◌<◌, ◌^◌, bit_and, bit_or}
use mathlib.Core.Path.{◌≡◌, refl}
use mathlib.Core.Bool.{Bool, true, false, ◌&&◌, ◌||◌, not}
use native.Mathlib.Omega.{arith}
use se.Base.Tests.{ltb, ◌==◌, if◌then◌else◌}

-- `b & (1 << o)` as a test
unfoldable pub has_bit : ℕ → ℕ → Bool
has_bit b o = not (bit_and b (2 ^ o) == 0)

-- `b | (1 << o)`
unfoldable pub with_bit : ℕ → ℕ → ℕ
with_bit b o = bit_or b (2 ^ o)

-- `b & ~(1 << o)`, in a byte
unfoldable pub without_bit : ℕ → ℕ → ℕ
without_bit b o = bit_and b (255 - 2 ^ o)

-- No number below the bound fails the test.
passes : (ℕ → Bool) → ℕ → Bool
passes test (suc bound) = let below = passes test bound in if test bound then below else false
passes test zero = true

passes_at : (test : ℕ → Bool) (bound i : ℕ) → i < bound → passes test bound ≡ true → test i ≡ true
unfolding passes
passes_at test (suc bound) i below all = ground (arith, passes_at test bound i)
passes_at test zero i below all = absurd (omega arith)

same : Bool → Bool → Bool
same true b = b
same false b = not b

same_sound : (a b : Bool) → same a b ≡ true → a ≡ b
unfolding same
same_sound true true h = refl
same_sound true false h = cc
same_sound false true h = cc
same_sound false false h = refl

-- A table over a byte and two bit positions.
module _ (t : ℕ → ℕ → ℕ → Bool) where
  row_holds : ℕ → Bool
  unfolding passes
  row_holds b = passes (λ o. passes (λ p. t b o p) 8) 8

  table_sound : (b o p : ℕ) → passes row_holds 256 ≡ true → b < 256 → o < 8 → p < 8 → t b o p ≡ true
  unfolding row_holds
  table_sound b o p whole hb ho hp =
      let row = passes_at row_holds 256 b hb whole in
      let cell = passes_at (λ o. passes (λ p. t b o p) 8) 8 o ho row in
      passes_at (λ p. t b o p) 8 p hp cell

set_test : ℕ → ℕ → ℕ → Bool
unfolding has_bit with_bit same
set_test b o p = same (has_bit (with_bit b o) p) (p == o || has_bit b p)

clear_test : ℕ → ℕ → ℕ → Bool
unfolding has_bit without_bit same
clear_test b o p = same (has_bit (without_bit b o) p) (not (p == o) && has_bit b p)

range_test : ℕ → ℕ → ℕ → Bool
unfolding with_bit without_bit
range_test b o p = ltb (with_bit b o) 256 && ltb (without_bit b o) 256

set_table : passes (row_holds set_test) 256 ≡ true
unfolding passes row_holds set_test
set_table = refl

clear_table : passes (row_holds clear_test) 256 ≡ true
unfolding passes row_holds clear_test
clear_table = refl

range_table : passes (row_holds range_test) 256 ≡ true
unfolding passes row_holds range_test
range_table = refl

pub has_bit-with_bit :
    (b o p : ℕ) → b < 256 → o < 8 → p < 8 → has_bit (with_bit b o) p ≡ (p == o || has_bit b p)
unfolding set_test
has_bit-with_bit b o p hb ho hp = same_sound _ _ (table_sound set_test b o p set_table hb ho hp)

pub has_bit-without_bit :
    (b o p : ℕ)
    → b < 256
    → o < 8
    → p < 8
    → has_bit (without_bit b o) p ≡ (not (p == o) && has_bit b p)
unfolding clear_test
has_bit-without_bit b o p hb ho hp =
    same_sound _ _ (table_sound clear_test b o p clear_table hb ho hp)

bit_range : (b o : ℕ) → b < 256 → o < 8 → range_test b o 0 ≡ true
bit_range b o hb ho = table_sound range_test b o 0 range_table hb ho (omega arith)

pub with_bit-lt : (b o : ℕ) → b < 256 → o < 8 → with_bit b o < 256
unfolding range_test
with_bit-lt b o hb ho = first _ _ (bit_range b o hb ho)
  where
    first : (x y : ℕ) → (ltb x 256 && ltb y 256) ≡ true → x < 256
    first x y h = ground arith

pub without_bit-lt : (b o : ℕ) → b < 256 → o < 8 → without_bit b o < 256
unfolding range_test
without_bit-lt b o hb ho = second _ _ (bit_range b o hb ho)
  where
    second : (x y : ℕ) → (ltb x 256 && ltb y 256) ≡ true → y < 256
    second x y h = ground arith
