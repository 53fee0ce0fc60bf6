-- ===== src/Disk.antt =====
-- The memory of one extent server: class disk, the fields of class block_manager and of class
-- inode_manager (inode_manager.h), and what the program takes from its environment.
use se.Base.{
  ℕ, ◌+◌, ◌*◌, ◌/◌, Bytes, List, M, pure, gets, modify, guard, ◌>>◌, ltb, ◌==◌, if◌then◌else◌,
  replicate,
}

abbrev pub block_size : ℕ
block_size = 512

abbrev pub disk_size : ℕ
disk_size = 1024 * 1024 * 16

abbrev pub block_num : ℕ
block_num = disk_size / block_size

abbrev pub inode_num : ℕ
inode_num = 1024

pub record Superblock : Type 0 where
  pub size : ℕ
  pub nblocks : ℕ
  pub ninodes : ℕ

-- What one call of the environment gives: the clock, the 32-bit words that `malloc` left in a
-- fresh buffer, and the bytes that lie in memory behind a string.
pub record World : Type 0 where
  pub now : ℕ
  pub junk : List ℕ
  pub beyond : Bytes

-- `last_inum` is the static counter of `alloc_inode`. `tick` counts the answers of the environment.
pub record Store : Type 0 where
  pub blocks : ℕ → Bytes
  pub sb : Superblock
  pub last_inum : ℕ
  pub world : ℕ → World
  pub tick : ℕ

abbrev pub update : (ℕ → Bytes) → ℕ → Bytes → ℕ → Bytes
update f p v q = if p == q then v else f q

-- `disk::disk` clears every block.
unfoldable pub empty_disk : ℕ → Bytes
empty_disk id = replicate block_size 0

-- An access outside the array `blocks` is a fault.
unfoldable pub read_block : ℕ → M Store Bytes
read_block id = do guard (ltb id block_num); gets λ s. s.blocks id

unfoldable pub write_block : ℕ → Bytes → M Store (Unit {0})
write_block id buf = do
  guard (ltb id block_num)
  modify λ s. record s { blocks = update s.blocks id buf }

-- The environment's next answer.
unfoldable pub ask : M Store World
ask s = pure (s.world s.tick) (record s { tick = s.tick + 1 })
