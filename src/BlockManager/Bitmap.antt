-- ===== src/BlockManager/Bitmap.antt =====
-- The bitmap as a set of blocks: what `alloc_block` and `free_block` of inode_manager.cc do to it.
use se.Base.{
  ℕ, ◌*◌, ◌/◌, ◌%◌, ◌≤◌, ◌<◌, ◌≡◌, ◌∙◌, Bytes, Bool, ◌&&◌, ◌||◌, not, inl, inr, arith, ◌==◌, ==_iff,
  Bool-cases, if◌then◌else◌, length, get_or, set, length-set, get_or-set_self, get_or-set_ne,
  with_bit, without_bit, has_bit-with_bit, has_bit-without_bit, with_bit-lt, without_bit-lt,
}
use se.Disk.{Store, block_size, update}
use se.BlockManager.{bpb, bit_at}

-- 512 bytes.
pub record IsBlock (buf : Bytes) : Type 0 where
  pub size : length buf ≡ block_size
  pub byte : (i : ℕ) → get_or buf i 0 < 256

-- The bitmap blocks, 2 to 9, hold bytes.
abbrev pub IsValid : Store → Type 0
IsValid s = (j : ℕ) → 2 ≤ j → j < 10 → IsBlock (s.blocks j)

-- The bit of a block in the bitmap.
unfoldable pub marked : Store → ℕ → Bool
marked s id = bit_at (s.blocks (id / bpb)) (id % bpb)

-- A bitmap block with the bit i set or cleared.
unfoldable pub set_bit : Bytes → ℕ → Bytes
set_bit buf i = set buf (i / 8) (with_bit (get_or buf (i / 8) 0) (i % 8))

unfoldable pub clear_bit : Bytes → ℕ → Bytes
clear_bit buf i = set buf (i / 8) (without_bit (get_or buf (i / 8) 0) (i % 8))

-- The store with the bit of a block set or cleared.
unfoldable pub mark : Store → ℕ → Store
mark s id = record s {
  blocks = update s.blocks (id / bpb) (set_bit (s.blocks (id / bpb)) (id % bpb));
}

unfoldable pub unmark : Store → ℕ → Store
unmark s id = record s {
  blocks = update s.blocks (id / bpb) (clear_bit (s.blocks (id / bpb)) (id % bpb));
}

-- Bytes at a position after a `set`.
get_or-set :
    (buf : Bytes) (i j v : ℕ)
    → i < length buf
    → get_or (set buf i v) j 0 ≡ (if j == i then v else get_or buf j 0)
get_or-set buf i j v h = elim (Bool-cases (j == i)) [
  | inl e ↦ rw (e, (==_iff j i).0 e) (get_or-set_self buf i v 0 h)
  | inr e ↦ rw e (get_or-set_ne buf i j v 0 (ground arith))
]

bit_at-set_bit :
    (buf : Bytes) (i k : ℕ)
    → IsBlock buf
    → i < bpb
    → bit_at (set_bit buf i) k ≡ (k == i || bit_at buf k)
unfolding set_bit
bit_at-set_bit buf i k b h = ground (
  arith,
  get_or-set buf (i / 8) (k / 8) (with_bit (get_or buf (i / 8) 0) (i % 8)),
  has_bit-with_bit (get_or buf (i / 8) 0) (i % 8) (k % 8),
  b.byte (i / 8),
  b.size,
)

bit_at-clear_bit :
    (buf : Bytes) (i k : ℕ)
    → IsBlock buf
    → i < bpb
    → bit_at (clear_bit buf i) k ≡ (not (k == i) && bit_at buf k)
unfolding clear_bit
bit_at-clear_bit buf i k b h = ground (
  arith,
  get_or-set buf (i / 8) (k / 8) (without_bit (get_or buf (i / 8) 0) (i % 8)),
  has_bit-without_bit (get_or buf (i / 8) 0) (i % 8) (k % 8),
  b.byte (i / 8),
  b.size,
)

set-IsBlock :
    (buf : Bytes) (i v : ℕ) → IsBlock buf → i < block_size → v < 256 → IsBlock (set buf i v)
set-IsBlock buf i v b h hv = record {
  size = length-set buf i v ∙ b.size;
  byte = λ j. ground (arith, get_or-set buf i j v, b.byte j, b.size);
}

pub set_bit-IsBlock : (buf : Bytes) (i : ℕ) → IsBlock buf → i < bpb → IsBlock (set_bit buf i)
unfolding set_bit
set_bit-IsBlock buf i b h =
    set-IsBlock buf (i / 8) _ b (omega arith) (with_bit-lt _ (i % 8) (b.byte (i / 8)) (omega arith))

pub clear_bit-IsBlock : (buf : Bytes) (i : ℕ) → IsBlock buf → i < bpb → IsBlock (clear_bit buf i)
unfolding clear_bit
clear_bit-IsBlock buf i b h =
    set-IsBlock buf (i / 8) _ b (omega arith)
      (without_bit-lt _ (i % 8) (b.byte (i / 8)) (omega arith))

-- The blocks whose bit lies in the bitmap blocks 2 to 9.
abbrev pub InBitmap : ℕ → Type 0
InBitmap id = (2 * bpb ≤ id) × (id < 10 * bpb)

-- Marking a block sets its bit and no other.
pub marked-mark :
    (s : Store) (id j : ℕ)
    → IsValid s
    → InBitmap id
    → marked (mark s id) j ≡ (j == id || marked s j)
unfolding marked mark
marked-mark s id j v h = ground (
  arith,
  bit_at-set_bit (s.blocks (id / bpb)) (id % bpb) (j % bpb)
      (v (id / bpb) (omega arith) (omega arith)) (omega arith),
)

pub marked-unmark :
    (s : Store) (id j : ℕ)
    → IsValid s
    → InBitmap id
    → marked (unmark s id) j ≡ (not (j == id) && marked s j)
unfolding marked unmark
marked-unmark s id j v h = ground (
  arith,
  bit_at-clear_bit (s.blocks (id / bpb)) (id % bpb) (j % bpb)
      (v (id / bpb) (omega arith) (omega arith)) (omega arith),
)
