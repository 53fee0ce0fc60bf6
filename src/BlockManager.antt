-- ===== src/BlockManager.antt =====
-- class block_manager of inode_manager.cc: the bitmap of blocks in use.
pub mod Bitmap
pub mod Alloc
pub mod Free
pub mod Count
pub mod Growth
pub mod Shrink
use se.Base.{
  ℕ, zero, suc, ◌+◌, ◌-◌, ◌*◌, ◌/◌, ◌%◌, ◌^◌, Bytes, Bool, Option, none, some, M, pure, ◌>>=◌, ◌>>◌,
  get_or, set, has_bit, with_bit, without_bit, if◌then◌else◌,
}
use se.Disk.{Store, World, block_size, block_num, inode_num, empty_disk, read_block, write_block}

-- BPB: the bits of a block.
abbrev pub bpb : ℕ
bpb = block_size * 8

-- BBLOCK: the block that holds the bit of block b.
abbrev pub bblock : ℕ → ℕ
bblock b = b / bpb + 2

-- `block_manager::block_manager`
unfoldable pub format_disk : (ℕ → World) → Store
format_disk world = record {
  blocks = empty_disk;
  sb = record { size = block_size * block_num; nblocks = block_num; ninodes = inode_num };
  last_inum = 0;
  world = world;
  tick = 0;
}

-- The bit i of a bitmap block.
abbrev pub bit_at : Bytes → ℕ → Bool
bit_at buf i = has_bit (get_or buf (i / 8) 0) (i % 8)

-- The inner loop of `alloc_block`, with n rounds left: the first clear bit from i on.
unfoldable pub find_clear : ℕ → ℕ → Bytes → Option ℕ
find_clear zero i buf = none
find_clear (suc n) i buf =
    let rest = find_clear n (i + 1) buf in if bit_at buf i then rest else some i

-- The body of the outer loop: take the bit that was found, or go on.
unfoldable pub take_bit : ℕ → Bytes → M Store ℕ → Option ℕ → M Store ℕ
take_bit bitmap_id buf next none = next
take_bit bitmap_id buf next (some i) = do
  write_block bitmap_id (set buf (i / 8) (with_bit (get_or buf (i / 8) 0) (i % 8)))
  pure (bitmap_id * bpb + i)

-- The outer loop, with n rounds left. The result -1 is a `blockid_t`.
unfoldable pub alloc_from : ℕ → ℕ → M Store ℕ
alloc_from zero bitmap_id = pure (2 ^ 32 - 1)
alloc_from (suc n) bitmap_id = do
  buf ← read_block bitmap_id
  take_bit bitmap_id buf (alloc_from n (bitmap_id + 1)) (find_clear bpb 0 buf)

unfoldable pub alloc_block : M Store ℕ
alloc_block = alloc_from (bblock (block_num - 1) + 1 - bblock 0) (bblock 0)

unfoldable pub free_block : ℕ → M Store (Unit {0})
free_block id = do
  let bitmap_id = bblock id - bblock 0
  buf ← read_block bitmap_id
  let index = id % bpb / 8
  write_block bitmap_id (set buf index (without_bit (get_or buf index 0) (id % bpb % 8)))
