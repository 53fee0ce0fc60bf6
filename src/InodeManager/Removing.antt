-- ===== src/InodeManager/Removing.antt =====
-- What `remove_file` does to the disk.
use se.Base.{
  ℕ, ◌≤◌, ◌<◌, ◌≡◌, ap, ◌∙◌, true, arith, some, none, All-replicate, length-replicate, ◌==◌,
  if◌then◌else◌, >>=-some,
}
use se.Disk.{Store, inode_num, read_block}
use se.BlockManager.Alloc.{read_bitmap}
use se.BlockManager.Bitmap.{marked}
use se.BlockManager.Count.{IsData, free_count}
use se.BlockManager.Growth.{blocks-put_block, write_block-put_block}
use se.BlockManager.Growth.{put_block}
use se.BlockManager.Shrink.{Shrinks-count, Frees}
use se.Inode.{Inode, ndirect, store_inode}
use se.Inode.Layout.{IsInode, IsWord, load_inode-store_inode}
use se.InodeManager.{
  get_inode, free_inode, clear_inode, free_data, remove_file, zero_inode, loop_size,
}
use se.InodeManager.Table.{slot, inode_at, IsFormatted, get_inode-inode_at, put_slot, slot_lem}
use se.InodeManager.Data.{IsOwned, free_data-Shrinks, file_blocks, loop_size_lem}
use se.InodeManager.Writing.{IsSound, inode_at-type, inode_at-same, put_slot_frame}
use se.InodeManager.Same.{SameData-put_slot}

zero_inode-IsInode : IsInode zero_inode
zero_inode-IsInode = record {
  type = omega arith;
  size = omega arith;
  atime = omega arith;
  mtime = omega arith;
  ctime = omega arith;
  slots = length-replicate {A = ℕ} ndirect 0;
  direct = All-replicate IsWord ndirect 0 (omega arith);
  indirect = omega arith;
}

-- An entry that is cleared is gone, and the others stay.
inode_at-cleared :
    (s : Store) (inum j : ℕ)
    → inum < inode_num
    → inode_at (put_slot s inum zero_inode) j ≡ (if inum == j then none else inode_at s j)
unfolding inode_at put_slot
inode_at-cleared s inum j h = ground (
  arith,
  blocks-put_block s (slot inum) (store_inode zero_inode (s.blocks (slot inum))) (slot j),
  load_inode-store_inode zero_inode (s.blocks (slot inum)) zero_inode-IsInode,
)

clear_inode-put_slot :
    (s : Store) (inum : ℕ) (old : Inode)
    → IsFormatted s
    → inum < inode_num
    → clear_inode inum (some old) s ≡ some (tt, put_slot s inum zero_inode)
unfolding clear_inode put_slot
clear_inode-put_slot s inum old f h = rw (slot_lem inum s f) (
    >>=-some (read_block (slot inum)) _ (read_bitmap s (slot inum) (omega arith))
    ∙ write_block-put_block s (slot inum) _ (omega arith))

remove_file_step :
    (inum : ℕ) (s : Store) {t u : Store} {ino old : Inode}
    → get_inode inum s ≡ some (some ino, s)
    → loop_size ino.size ≡ ino.size
    → free_data ino s ≡ some (tt, t)
    → get_inode inum t ≡ some (some old, t)
    → clear_inode inum (some old) t ≡ some (tt, u)
    → remove_file inum s ≡ some (tt, u)
unfolding remove_file free_inode
remove_file_step inum s a same b c d = ground arith

-- Removing a file whose blocks are its own ends without a fault: its entry of the table is empty,
-- every other entry is as before, the disk stays in order, and blocks in use by others keep their
-- mark and their contents. The data blocks of the file, the indirect block too, are free
-- afterwards, and every other data block is marked as before. So the number of free data blocks
-- does not go down; the counter of inodes stays. The disk is in order.
pub remove_file-inode_at :
    (P : ℕ → Type 0) (inum : ℕ) (old : Inode) (s : Store)
    → IsSound s
    → inode_at s inum ≡ some old
    → IsOwned P s old
    → (t : Store) × (remove_file inum s ≡ some (tt, t))
      × IsSound t
      × ((j : ℕ) → inode_at t j ≡ (if inum == j then none else inode_at s j))
      × ((j : ℕ)
          → IsData j
          → P j
          → marked s j ≡ true
          → (marked t j ≡ true) × (t.blocks j ≡ s.blocks j))
      × Frees (file_blocks s.blocks old) s t
      × (free_count s ≤ free_count t)
      × (t.last_inum ≡ s.last_inum)
remove_file-inode_at P inum old s sound found owned =
    let (inside, typed) = inode_at-type s inum old found in
    let (s1, freed, a, exact) = free_data-Shrinks P old s sound.valid owned in
    let formatted : IsFormatted s1 = ap (λ b. b.nblocks) a.sb ∙ sound.formatted in
    let sound1 : IsSound s1 = record {
      formatted = formatted;
      valid = a.valid;
      words = rw a.world sound.words;
      clock = rw a.world sound.clock;
    } in
    let same : (j : ℕ) → inode_at s1 j ≡ inode_at s j =
      λ j. inode_at-same s s1 j (λ lt. a.kept (slot j) (omega arith)) in
    let t : Store = put_slot s1 inum zero_inode in
    (
      t,
      remove_file_step inum s
          (get_inode-inode_at s inum sound.formatted ∙ ap (λ p. some (p, s)) found)
          (loop_size_lem old.size (omega (arith, owned.fits))) freed
          (get_inode-inode_at s1 inum formatted ∙ ap (λ p. some (p, s1)) (same inum ∙ found))
          (clear_inode-put_slot s1 inum old formatted inside),
      (put_slot_frame s1 inum zero_inode inside sound1).0,
      λ j. rw (← same j) (inode_at-cleared s1 inum j inside),
      λ j d p m. (
        (SameData-put_slot s1 inum zero_inode inside j d).0 ∙ a.spared j d p m,
        (SameData-put_slot s1 inum zero_inode inside j d).1 ∙ a.kept j (omega arith),
      ),
      λ j d. (SameData-put_slot s1 inum zero_inode inside j d).0 ∙ exact j d,
      omega (arith, (put_slot_frame s1 inum zero_inode inside sound1).1, Shrinks-count P a),
      unfold put_slot put_block in a.last_inum,
    )
