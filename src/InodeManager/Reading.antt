-- ===== src/InodeManager/Reading.antt =====
-- What `read_file` returns: the string that was written last.
use se.Base.{ℕ, ◌+◌, ◌≤◌, ◌≡◌, ap, subst, sym, ◌∙◌, Bytes, ◌++◌, arith, some, length, take}
use se.Disk.{Store, ask}
use se.BlockManager.Count.{free_count}
use se.BlockManager.Growth.{ticked}
use se.Inode.{Inode}
use se.Inode.Layout.{IsInode}
use se.InodeManager.{get_inode, put_inode, load_data, read_file, write_file, loop_size}
use se.InodeManager.Loads.{Spells, Spells-take}
use se.InodeManager.Table.{inode_at, get_inode-inode_at, put_slot, put_inode-put_slot}
use se.InodeManager.Data.{max_size, IsOwned, loop_size_lem}
use se.InodeManager.Stored.{HoldsFile, load_data-Spells}
use se.InodeManager.Stores.{blocks_for}
use se.InodeManager.Writing.{IsSound, inode_at-type, Writes, write_file-Writes}

read_file_step :
    (inum : ℕ) (s : Store) {t : Store} {ino : Inode} {bytes : Bytes}
    → get_inode inum s ≡ some (some ino, s)
    → loop_size ino.size ≡ ino.size
    → load_data ino s ≡ some (bytes, s)
    → put_inode inum (record ino { atime = (s.world s.tick).now }) (ticked s (s.tick + 1))
      ≡ some (tt, t)
    → read_file inum s ≡ some ((bytes, ino.size), t)
unfolding read_file ask ticked
read_file_step inum s a same b c = ground arith

-- The inode after a read.
abbrev pub touched : Store → Inode → Inode
touched s ino = record ino { atime = (s.world s.tick).now }

-- The store after a read.
unfoldable pub after_read : Store → ℕ → Inode → Store
after_read s inum ino = put_slot (ticked s (s.tick + 1)) inum (touched s ino)

-- A file is read where its data can be loaded; only the access time changes.
pub read_file-after_read :
    (s : Store) (inum : ℕ) (ino : Inode) (bytes : Bytes)
    → IsSound s
    → inode_at s inum ≡ some ino
    → ino.size ≤ max_size
    → load_data ino s ≡ some (bytes, s)
    → read_file inum s ≡ some ((bytes, ino.size), after_read s inum ino)
unfolding after_read ticked
read_file-after_read s inum ino bytes sound found fits loads =
    read_file_step inum s (get_inode-inode_at s inum sound.formatted ∙ ap (λ p. some (p, s)) found)
      (loop_size_lem ino.size (omega arith)) loads
      (put_inode-put_slot (ticked s (s.tick + 1)) inum (touched s ino) sound.formatted
        (inode_at-type s inum ino found).0)

module _ {P : ℕ → Type 0} (inum : ℕ) {old : Inode} (buf : Bytes) {s : Store}
    (w : Writes P inum old buf s) (small : length buf ≤ max_size) where
  written_at : inode_at w.store inum ≡ some w.ino
  written_at = w.table inum ∙ ground arith

  written_data :
      (bytes : Bytes) × (end : ℕ) × (load_data w.ino w.store ≡ some (bytes, w.store))
      × Spells (buf ++ w.beyond) bytes 0 end
      × (w.ino.size ≤ end)
  written_data =
      load_data-Spells w.start w.store (buf ++ w.beyond) w.ino (omega (arith, w.size))
        (subst (HoldsFile w.start w.store (buf ++ w.beyond) w.ino) (sym w.size) w.holds)

  pub written_loads :
      (bytes : Bytes) × (load_data w.ino w.store ≡ some (bytes, w.store))
      × (take (length buf) bytes ≡ buf)
  written_loads =
      let (bytes, end, loads, spells, far) = written_data in
      (bytes, loads, Spells-take buf w.beyond bytes end spells (omega (arith, w.size, far)))

-- A string that `write_file` has stored is what `read_file` gives: both end without a fault, the
-- size is the length of the string, and the buffer up to the size is the string.
pub read_file-write_file :
    (P : ℕ → Type 0) (inum : ℕ) (old : Inode) (buf : Bytes) (s : Store)
    → IsSound s
    → inode_at s inum ≡ some old
    → IsInode old
    → IsOwned P s old
    → length buf ≤ max_size
    → blocks_for (length buf) ≤ free_count s
    → (t u : Store) × (bytes : Bytes) × (write_file inum buf (length buf) s ≡ some (tt, t))
      × (read_file inum t ≡ some ((bytes, length buf), u))
      × (take (length buf) bytes ≡ buf)
read_file-write_file P inum old buf s sound found fits owned small room =
    let w = write_file-Writes P inum old buf s sound found fits owned small room in
    let (bytes, loads, same) = written_loads inum buf w small in
    (
      w.store,
      after_read w.store inum w.ino,
      bytes,
      w.runs,
      read_file-after_read w.store inum w.ino bytes w.sound (written_at inum buf w small)
            (omega (arith, w.size)) loads
          ∙ ap (λ (n : ℕ). some ((bytes, n), after_read w.store inum w.ino)) w.size,
      same,
    )
