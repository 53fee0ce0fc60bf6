-- ===== src/BlockManager/Free.antt =====
-- `free_block` clears the bit that `alloc_block` has set.
use se.Base.{
  ℕ, ◌-◌, ◌*◌, ◌/◌, ◌%◌, ◌^◌, ◌<◌, ◌≡◌, arith, some, >>=-some, ◌∙◌, ap, subst, false, Option,
}
use mathlib.Core.Option
use se.Disk.{Store, read_block}
use se.BlockManager.{bpb, bblock, alloc_block, free_block}
use se.BlockManager.Bitmap.{
  IsValid, InBitmap, marked, mark, unmark, clear_bit, set_bit-IsBlock, clear_bit-IsBlock,
  marked-mark, marked-unmark,
}
use se.BlockManager.Alloc.{read_bitmap, write_bitmap, Allocates, full, takes, alloc_block-Allocates}

pub mark-IsValid : (s : Store) (id : ℕ) → IsValid s → IsValid (mark s id)
unfolding mark
mark-IsValid s id v j lo hi =
    grind (arith, v j lo hi, set_bit-IsBlock (s.blocks j) (id % bpb) (v j lo hi))

pub unmark-IsValid : (s : Store) (id : ℕ) → IsValid s → IsValid (unmark s id)
unfolding unmark
unmark-IsValid s id v j lo hi =
    grind (arith, v j lo hi, clear_bit-IsBlock (s.blocks j) (id % bpb) (v j lo hi))

-- Freeing a block that the bitmap covers clears its bit and changes nothing else.
pub free_block-unmark :
    (s : Store) (id : ℕ) → id < 10 * bpb → free_block id s ≡ some (tt, unmark s id)
unfolding free_block unmark clear_bit
free_block-unmark s id h =
    let block : bblock id - bblock 0 ≡ id / bpb = omega arith in
    rw block (
      >>=-some (read_block (id / bpb)) _ (read_bitmap s (id / bpb) (omega arith))
      ∙ write_bitmap s (id / bpb) _ (omega arith))

unmark-mark :
    (s : Store) (id j : ℕ)
    → IsValid s
    → InBitmap id
    → marked s id ≡ false
    → marked (unmark (mark s id) id) j ≡ marked s j
unmark-mark s id j v h free =
    ground (arith, marked-unmark (mark s id) id j (mark-IsValid s id v) h, marked-mark s id j v h)

alloc_block-mark :
    (s : Store) (id : ℕ) (t : Store)
    → Allocates s (2 * bpb) (some (id, t))
    → id < 10 * bpb
    → InBitmap id × (marked s id ≡ false) × (t ≡ mark s id)
alloc_block-mark s id t (full all e) h =
    let wrong : id ≡ 2 ^ 32 - 1 = ap (λ (r : Option (ℕ × Store)). (Option.get_or r (0, s)).0) e in
    absurd (omega arith)
alloc_block-mark s id t (takes id' lo hi free below e) h =
    let here : id ≡ id' = ap (λ (r : Option (ℕ × Store)). (Option.get_or r (0, s)).0) e in
    let store : t ≡ mark s id' = ap (λ (r : Option (ℕ × Store)). (Option.get_or r (0, s)).1) e in
    ((omega arith, h), rw here free, rw here store)

-- A block that was just allocated and is freed again: the bitmap is as before, for every block.
pub free_block-alloc_block :
    (s : Store) (id : ℕ) (t : Store)
    → IsValid s
    → alloc_block s ≡ some (id, t)
    → id < 10 * bpb
    → free_block id t ≡ some (tt, unmark t id) × ((j : ℕ) → marked (unmark t id) j ≡ marked s j)
free_block-alloc_block s id t v e h =
    let (inside, free, store) =
      alloc_block-mark s id t (subst (Allocates s (2 * bpb)) e (alloc_block-Allocates s)) h in
    (free_block-unmark t id h, λ j. rw store (unmark-mark s id j v inside free))
