-- ===== src/InodeManager/Table.antt =====
-- The inode table: what `put_inode` writes, `get_inode` returns.
use se.Base.{
  ℕ, ◌+◌, ◌<◌, ◌≡◌, ◌≢◌, ◌∙◌, inl, inr, arith, Option, some, none, leb, ◌==◌, Bool-cases,
  if◌then◌else◌, >>=-some,
}
use se.Disk.{Store, block_num, inode_num, read_block}
use se.BlockManager.Alloc.{read_bitmap}
use se.BlockManager.Growth.{put_block, write_block-put_block, blocks-put_block}
use se.Inode.{Inode, load_inode, store_inode}
use se.Inode.Layout.{IsInode, load_inode-store_inode}
use se.InodeManager.{iblock, get_inode, put_inode}

-- The block of an inode on this disk.
abbrev pub slot : ℕ → ℕ
slot inum = inum + 11

abbrev live : Inode → Option Inode
live ino = if ino.type == 0 then none else some ino

-- The inode table as a partial function.
unfoldable pub inode_at : Store → ℕ → Option Inode
inode_at s inum = if leb inode_num inum then none else live (load_inode (s.blocks (slot inum)))

-- The disk was formatted.
abbrev pub IsFormatted : Store → Type 0
IsFormatted s = s.sb.nblocks ≡ block_num

pub slot_lem : (inum : ℕ) (s : Store) → IsFormatted s → iblock inum s.sb.nblocks ≡ slot inum
slot_lem inum s f = rw f (omega arith)

pub get_inode-inode_at :
    (s : Store) (inum : ℕ) → IsFormatted s → get_inode inum s ≡ some (inode_at s inum, s)
unfolding get_inode inode_at
get_inode-inode_at s inum f = elim (Bool-cases (leb inode_num inum)) [
  | inl out ↦ rw out
  | inr inside ↦
      rw (inside, slot_lem inum s f)
        (>>=-some (read_block (slot inum)) _ (read_bitmap s (slot inum) (ground arith)))
]

-- The store after `put_inode`.
unfoldable pub put_slot : Store → ℕ → Inode → Store
put_slot s inum ino = put_block s (slot inum) (store_inode ino (s.blocks (slot inum)))

pub put_inode-put_slot :
    (s : Store) (inum : ℕ) (ino : Inode)
    → IsFormatted s
    → inum < inode_num
    → put_inode inum ino s ≡ some (tt, put_slot s inum ino)
unfolding put_inode put_slot
put_inode-put_slot s inum ino f h = rw (slot_lem inum s f) (
    >>=-some (read_block (slot inum)) _ (read_bitmap s (slot inum) (omega arith))
    ∙ write_block-put_block s (slot inum) _ (omega arith))

-- Storing an inode changes its own entry of the table and no other.
pub inode_at-put_slot :
    (s : Store) (inum : ℕ) (ino : Inode) (j : ℕ)
    → inum < inode_num
    → IsInode ino
    → ino.type ≢ 0
    → inode_at (put_slot s inum ino) j ≡ (if inum == j then some ino else inode_at s j)
unfolding inode_at put_slot
inode_at-put_slot s inum ino j h k nz = ground (
  arith,
  blocks-put_block s (slot inum) (store_inode ino (s.blocks (slot inum))) (slot j),
  load_inode-store_inode ino (s.blocks (slot inum)) k,
)
