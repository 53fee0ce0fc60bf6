-- ===== src/BlockManager/Count.antt =====
-- How many blocks of the disk are free: what `alloc_block` can give before it fails.
use se.Base.{
  ℕ, zero, suc, ◌+◌, ◌-◌, ◌*◌, ◌≤◌, ◌<◌, ◌≡◌, refl, Bool, true, false, inl, inr, arith, some,
  Option, ◌==◌, Bool-cases,
}
use se.Disk.{Store, block_num}
use se.BlockManager.{bpb, alloc_block}
use se.BlockManager.Bitmap.{IsValid, marked, mark, marked-mark}
use se.BlockManager.Alloc.{Allocates, full, takes, alloc_block-Allocates}

-- A data block: the bitmap covers it, and it lies on the disk.
abbrev pub IsData : ℕ → Type 0
IsData id = (2 * bpb ≤ id) × (id < block_num)

abbrev cost : Bool → ℕ
cost true = 0
cost false = 1

-- The free ones of the first n data blocks.
unfoldable pub free_in : ℕ → Store → ℕ
free_in zero s = 0
free_in (suc n) s = cost (marked s (2 * bpb + n)) + free_in n s

-- The free data blocks.
unfoldable pub free_count : Store → ℕ
free_count s = free_in (block_num - 2 * bpb) s

free_in-cong :
    (n : ℕ) (s t : Store)
    → ((j : ℕ) → 2 * bpb ≤ j → j < 2 * bpb + n → marked t j ≡ marked s j)
    → free_in n t ≡ free_in n s
unfolding free_in
free_in-cong zero s t h = refl
free_in-cong (suc n) s t h =
    rw (h (2 * bpb + n) (omega arith) (omega arith))
      (omega (arith, free_in-cong n s t (λ j p q. h j p (omega arith))))

free_in-le :
    (n : ℕ) (s t : Store)
    → ((j : ℕ) → 2 * bpb ≤ j → j < 2 * bpb + n → marked t j ≡ true → marked s j ≡ true)
    → free_in n s ≤ free_in n t
unfolding free_in
free_in-le zero s t h = omega arith
free_in-le (suc n) s t h = ground (
  arith,
  h (2 * bpb + n) (omega arith) (omega arith),
  free_in-le n s t (λ j p q. h j p (omega arith)),
)

free_in-mark :
    (n : ℕ) (s : Store) (id : ℕ)
    → IsValid s
    → IsData id
    → marked s id ≡ false
    → id < 2 * bpb + n
    → n ≤ block_num - 2 * bpb
    → free_in n (mark s id) + 1 ≡ free_in n s
unfolding free_in
free_in-mark zero s id v d free lt small = absurd (omega arith)
free_in-mark (suc n) s id v d free lt small = elim (Bool-cases (2 * bpb + n == id)) [
  | inl here ↦ ground (
    arith,
    marked-mark s id (2 * bpb + n) v (omega arith),
    free_in-cong n s (mark s id) (λ j p q. ground (arith, marked-mark s id j v (omega arith))),
  )
  | inr other ↦ ground (
    arith,
    marked-mark s id (2 * bpb + n) v (omega arith),
    free_in-mark n s id v d free (ground arith) (omega arith),
  )
]

free_in_pos :
    (n : ℕ) (s : Store)
    → 0 < free_in n s
    → (j : ℕ) × (2 * bpb ≤ j) × (j < 2 * bpb + n) × (marked s j ≡ false)
unfolding free_in
free_in_pos zero s h = absurd (omega arith)
free_in_pos (suc n) s h = elim (Bool-cases (marked s (2 * bpb + n))) [
  | inl e ↦ let (j, lo, hi, free) = free_in_pos n s (ground arith) in (j, lo, omega arith, free)
  | inr e ↦ (2 * bpb + n, omega arith, omega arith, e)
]

-- Marking a free data block takes one from the count.
pub free_count-mark :
    (s : Store) (id : ℕ)
    → IsValid s
    → IsData id
    → marked s id ≡ false
    → free_count (mark s id) + 1 ≡ free_count s
unfolding free_count
free_count-mark s id v d free = free_in-mark _ s id v d free (omega arith) (omega arith)

pub free_count-cong :
    (s t : Store) → ((j : ℕ) → IsData j → marked t j ≡ marked s j) → free_count t ≡ free_count s
unfolding free_count
free_count-cong s t h = free_in-cong _ s t (λ j p q. h j (p, omega arith))

pub free_count-le :
    (s t : Store)
    → ((j : ℕ) → IsData j → marked t j ≡ true → marked s j ≡ true)
    → free_count s ≤ free_count t
unfolding free_count
free_count-le s t h = free_in-le _ s t (λ j p q. h j (p, omega arith))

first_free :
    (s : Store) (r : Option (ℕ × Store))
    → Allocates s (2 * bpb) r
    → (j : ℕ) → IsData j
    → marked s j ≡ false
    → (id : ℕ) × IsData id × (marked s id ≡ false) × (r ≡ some (id, mark s id))
first_free s r (full all e) j d free = absurd (ground (arith, all j))
first_free s r (takes id lo hi clear below e) j d free =
    (id, (lo, ground (arith, below j)), clear, e)

-- While a data block is free, `alloc_block` gives one.
pub alloc_block_free :
    (s : Store)
    → 0 < free_count s
    → (id : ℕ) × IsData id × (marked s id ≡ false) × (alloc_block s ≡ some (id, mark s id))
unfolding free_count
alloc_block_free s h =
    let (j, lo, hi, free) = free_in_pos _ s h in
    first_free s (alloc_block s) (alloc_block-Allocates s) j (lo, omega arith) free
