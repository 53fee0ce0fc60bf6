-- ===== src/Directory/Number.antt =====
-- The decimal numbers of a directory: what `operator<<` prints, `atoi` reads.
use native.Mathlib.Nat.{pow-suc}
use se.Base.{
  length, length-append, ℕ, zero, suc, ◌+◌, ◌-◌, ◌*◌, ◌/◌, ◌%◌, ◌^◌, ◌≤◌, ◌<◌, ◌≡◌, ◌≢◌, refl,
  Bytes, [], ◌∷◌, ◌++◌, inl, inr, arith, some, All, ltb, Bool-cases, ltb→lt, ap,
}
use se.Directory.{digits, filename, leading, skip_spaces, signed, atoi}

abbrev pub IsDigit : ℕ → Type 0
IsDigit c = (b'0' ≤ c) × (c ≤ b'9')

-- Digits, one at least.
abbrev pub IsNumber : Bytes → Type 0
IsNumber s = (s ≢ []) × All IsDigit s

All-snoc : (s : Bytes) (c : ℕ) → All IsDigit s → IsDigit c → All IsDigit (s ++ c ∷ [])
All-snoc [] c hs hc = (hc, tt)
All-snoc (d ∷ s) c hs hc = (hs.0, All-snoc s c hs.1 hc)

snoc-ne-nil : (s : Bytes) (c : ℕ) → s ++ c ∷ [] ≢ []
snoc-ne-nil [] c e = cc
snoc-ne-nil (d ∷ s) c e = cc

digits-All : (f n : ℕ) → All IsDigit (digits f n)
unfolding digits
digits-All zero n = tt
digits-All (suc f) n =
    let rest = All-snoc (digits f (n / 10)) (b'0' + n % 10) (digits-All f (n / 10)) (omega arith) in
    elim (Bool-cases (ltb n 10)) [
      | inl small ↦ rw small (let h = ltb→lt n 10 small in (omega arith, tt))
      | inr big ↦ rw big rest
    ]

digits-ne-nil : (f n : ℕ) → digits (suc f) n ≢ []
unfolding digits
digits-ne-nil f n = elim (Bool-cases (ltb n 10)) [
  | inl small ↦ rw small λ e. cc
  | inr big ↦ rw big (snoc-ne-nil (digits f (n / 10)) (b'0' + n % 10))
]

pub filename-IsNumber : (n : ℕ) → IsNumber (filename n)
unfolding filename
filename-IsNumber n = (digits-ne-nil 19 n, digits-All 20 n)

leading-snoc :
    (s : Bytes) (c acc : ℕ)
    → All IsDigit s
    → IsDigit c
    → leading (s ++ c ∷ []) acc ≡ leading s acc * 10 + (c - b'0')
unfolding leading
leading-snoc [] c acc hs hc = ground arith
leading-snoc (d ∷ s) c acc hs hc = ground (arith, leading-snoc s c (acc * 10 + (d - b'0')) hs.1 hc)

leading-digits : (f n : ℕ) → n < 10 ^ f → leading (digits f n) 0 ≡ n
unfolding digits
leading-digits zero n h = unfold leading in omega arith
leading-digits (suc f) n h = elim (Bool-cases (ltb n 10)) [
  | inl small ↦ rw small (unfold leading in ground arith)
  | inr big ↦ rw big (
      omega (
        arith,
        leading-snoc (digits f (n / 10)) (b'0' + n % 10) 0 (digits-All f (n / 10)) (omega arith),
        leading-digits f (n / 10) (omega (arith, pow-suc 10 f)),
      ))
]

signed-leading : (s : Bytes) → IsNumber s → leading s 0 < 2 ^ 31 → atoi s ≡ some (leading s 0)
unfolding atoi signed skip_spaces
signed-leading [] h lt = absurd (h.0 refl)
signed-leading (c ∷ s) h lt = ground arith

-- A number that fits an int is read back as it was printed.
pub atoi-filename : (n : ℕ) → n < 2 ^ 31 → atoi (filename n) ≡ some n
unfolding filename
atoi-filename n h =
    let value : leading (digits 20 n) 0 ≡ n = leading-digits 20 n (omega arith) in
    rw (signed-leading (digits 20 n) (filename-IsNumber n) (omega (arith, value))) (ap some value)

length-digits : (f n : ℕ) → length (digits f n) ≤ f
unfolding digits
length-digits zero n = omega arith
length-digits (suc f) n =
    ground
      (arith, length-digits f (n / 10), length-append (digits f (n / 10)) ((b'0' + n % 10) ∷ []))

pub length-filename : (n : ℕ) → length (filename n) ≤ 20
unfolding filename
length-filename n = length-digits 20 n
