-- ===== src/BlockManager/Alloc.antt =====
-- `alloc_block` takes the first free block.
use se.Base.{
  ℕ, zero, suc, ◌+◌, ◌-◌, ◌*◌, ◌/◌, ◌%◌, ◌^◌, ◌≤◌, ◌<◌, ◌≡◌, refl, Bytes, true, false, inl, inr,
  arith, Option, some, none, ltb, ltb→lt, ltb→le, ◌∙◌, Bool-cases, >>=-some, ◌>>◌, pure,
}
use se.Disk.{Store, block_num, read_block, write_block, update}
use se.BlockManager.{bpb, bit_at, find_clear, take_bit, alloc_from, alloc_block}
use se.BlockManager.Bitmap.{marked, mark, set_bit}

-- What a search for a clear bit among n bits from `lo` on has found.
abbrev Found : Bytes → ℕ → ℕ → Option ℕ → Type 0
Found buf lo n none = (k : ℕ) → lo ≤ k → k < lo + n → bit_at buf k ≡ true
Found buf lo n (some i) =
    (lo ≤ i)
    × (i < lo + n)
    × (bit_at buf i ≡ false)
    × ((k : ℕ) → lo ≤ k → k < i → bit_at buf k ≡ true)

Found-step :
    (buf : Bytes) (lo n : ℕ) (r : Option ℕ)
    → bit_at buf lo ≡ true
    → Found buf (lo + 1) n r
    → Found buf lo (suc n) r
Found-step buf lo n none e h = λ k p q. grind (arith, h)
Found-step buf lo n (some i) e h = (omega arith, omega arith, h.2, λ k p q. grind (arith, h.3))

find_clear-Found : (n lo : ℕ) (buf : Bytes) → Found buf lo n (find_clear n lo buf)
unfolding find_clear
find_clear-Found zero lo buf = λ k p q. absurd (omega arith)
find_clear-Found (suc n) lo buf = elim (Bool-cases (bit_at buf lo)) [
  | inl e ↦ rw e (Found-step buf lo n _ e (find_clear-Found n (lo + 1) buf))
  | inr e ↦ rw e (omega arith, omega arith, e, λ k p q. absurd (omega arith))
]

pub read_bitmap : (s : Store) (b : ℕ) → b < block_num → read_block b s ≡ some (s.blocks b, s)
unfolding read_block
read_bitmap s b h = ground arith

pub write_bitmap :
    (s : Store) (b : ℕ) (buf : Bytes)
    → b < block_num
    → write_block b buf s ≡ some (tt, record s { blocks = update s.blocks b buf })
unfolding write_block
write_bitmap s b buf h = ground arith

-- How `alloc_from` ends that begins at the bitmap block `b`: every bit from there on is set and the
-- result is -1, or the first clear one is taken.
pub data Allocates (s : Store) (lo : ℕ) (r : Option (ℕ × Store)) : Type 0 where
  full :
      ((j : ℕ) → lo ≤ j → j < 10 * bpb → marked s j ≡ true)
      → r ≡ some (2 ^ 32 - 1, s)
      → Allocates s lo r
  takes :
      (id : ℕ)
      → lo ≤ id
      → id < 10 * bpb
      → marked s id ≡ false
      → ((j : ℕ) → lo ≤ j → j < id → marked s j ≡ true)
      → r ≡ some (id, mark s id)
      → Allocates s lo r

marked-bit_at :
    (s : Store) (b j : ℕ)
    → b * bpb ≤ j
    → j < (b + 1) * bpb
    → marked s j ≡ bit_at (s.blocks b) (j - b * bpb)
unfolding marked
marked-bit_at s b j p q =
    let block : j / bpb ≡ b = omega arith in
    let bit : j % bpb ≡ j - b * bpb = omega arith in rw (block, bit)

marked_below :
    (s : Store) (b n j : ℕ)
    → ((k : ℕ) → 0 ≤ k → k < n → bit_at (s.blocks b) k ≡ true)
    → n ≤ bpb
    → b * bpb ≤ j
    → j < b * bpb + n
    → marked s j ≡ true
marked_below s b n j h small p q =
    marked-bit_at s b j p (omega arith) ∙ h (j - b * bpb) (omega arith) (omega arith)

mark-set_bit :
    (s : Store) (b i : ℕ)
    → i < bpb
    → mark s (b * bpb + i) ≡ record s { blocks = update s.blocks b (set_bit (s.blocks b) i) }
unfolding mark
mark-set_bit s b i h =
    let block : (b * bpb + i) / bpb ≡ b = omega arith in
    let bit : (b * bpb + i) % bpb ≡ i = omega arith in rw (block, bit)

write_marks :
    (s : Store) (b i : ℕ)
    → b < 10
    → i < bpb
    → (write_block b (set_bit (s.blocks b) i) >> pure (b * bpb + i)) s
      ≡ some (b * bpb + i, mark s (b * bpb + i))
write_marks s b i h k =
    >>=-some (write_block b (set_bit (s.blocks b) i)) (λ _. pure (b * bpb + i))
      (write_bitmap s b _ (omega arith))
    ∙ rw (mark-set_bit s b i k)

-- The bits of one block are all set: the search goes on behind it.
Allocates-skip :
    (s : Store) (b : ℕ) (r : Option (ℕ × Store))
    → ((k : ℕ) → 0 ≤ k → k < 0 + bpb → bit_at (s.blocks b) k ≡ true)
    → Allocates s ((b + 1) * bpb) r
    → Allocates s (b * bpb) r
Allocates-skip s b r h (full rest e) =
    full
      (λ j p q. elim (Bool-cases (ltb j ((b + 1) * bpb))) [
        | inl here ↦ marked_below s b bpb j h (omega arith) p (omega (arith, ltb→lt _ _ here))
        | inr behind ↦ rest j (ltb→le _ _ behind) q
      ])
      e
Allocates-skip s b r h (takes id lo hi free rest e) =
    takes id (omega arith) hi free
      (λ j p q. elim (Bool-cases (ltb j ((b + 1) * bpb))) [
        | inl here ↦ marked_below s b bpb j h (omega arith) p (omega (arith, ltb→lt _ _ here))
        | inr behind ↦ rest j (ltb→le _ _ behind) q
      ])
      e

take_bit-Allocates :
    (s : Store) (b : ℕ) (next : Store → Option (ℕ × Store)) (r : Option ℕ)
    → b < 10
    → Found (s.blocks b) 0 bpb r
    → Allocates s ((b + 1) * bpb) (next s)
    → Allocates s (b * bpb) (take_bit b (s.blocks b) next r s)
unfolding take_bit set_bit
take_bit-Allocates s b next none h f rest = Allocates-skip s b (next s) f rest
take_bit-Allocates s b next (some i) h (lo, hi, clear, lower) rest =
    takes (b * bpb + i) (omega arith) (omega arith)
      (marked-bit_at s b (b * bpb + i) (omega arith) (omega arith)
        ∙ (let bit : b * bpb + i - b * bpb ≡ i = omega arith in rw bit clear))
      (λ j p q. marked_below s b i j lower (omega arith) p q)
      (write_marks s b i (omega arith) (omega arith))

alloc_from-suc :
    (n b : ℕ) (s : Store)
    → b < 10
    → alloc_from (suc n) b s
      ≡ take_bit b (s.blocks b) (alloc_from n (b + 1)) (find_clear bpb 0 (s.blocks b)) s
unfolding alloc_from
alloc_from-suc n b s h =
    >>=-some (read_block b) (λ buf. take_bit b buf (alloc_from n (b + 1)) (find_clear bpb 0 buf))
      (read_bitmap s b (omega arith))

alloc_from-Allocates : (n b : ℕ) (s : Store) → b + n ≡ 10 → Allocates s (b * bpb) (alloc_from n b s)
alloc_from-Allocates zero b s e = full (λ j p q. absurd (omega arith)) (unfold alloc_from in refl)
alloc_from-Allocates (suc n) b s e = rw (alloc_from-suc n b s (omega arith)) (
    take_bit-Allocates s b (alloc_from n (b + 1)) (find_clear bpb 0 (s.blocks b)) (omega arith)
      (find_clear-Found bpb 0 (s.blocks b)) (alloc_from-Allocates n (b + 1) s (omega arith)))

-- `alloc_block` returns the first block of the bitmap whose bit is clear, and sets this bit and
-- changes nothing else; only if every bit is set it returns -1 and changes nothing.
pub alloc_block-Allocates : (s : Store) → Allocates s (2 * bpb) (alloc_block s)
unfolding alloc_block
alloc_block-Allocates s = alloc_from-Allocates 8 2 s refl
