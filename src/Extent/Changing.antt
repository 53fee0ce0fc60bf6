-- ===== src/Extent/Changing.antt =====
-- What reading, writing, creating and removing do to the table of files.
use se.Base.{
  ℕ, ◌≤◌, ◌<◌, ◌≡◌, ◌≢◌, refl, ap, ◌∙◌, sym, subst, Bytes, ◌++◌, true, false, arith, some, length,
  take, has, All-has, if◌then◌else◌, ◌==◌, some_inj,
}
use se.Disk.{Store, block_size, inode_num}
use se.BlockManager.Bitmap.{marked}
use se.BlockManager.Count.{IsData, free_count}
use se.BlockManager.Shrink.{IsLoose}
use se.Inode.{Inode, ndirect}
use se.InodeManager.{nindirect, load_data}
use se.InodeManager.Loops.{rounds}
use se.BlockManager.Growth.{put_block}
use se.BlockManager.Count.{free_count-cong}
use se.InodeManager.Table.{inode_at, put_slot, inode_at-put_slot}
use se.InodeManager.Writing.{put_slot_frame, inode_at-same}
use se.InodeManager.Same.{SameData-put_slot}
use se.InodeManager.Contents.{file-same}
use se.InodeManager.Data.{max_size, direct_end, IsOwned, listed, file_blocks}
use se.InodeManager.Contents.{
  content, file_bytes, has-direct, has-indirect, has-listed, load_data-file_bytes,
}
use se.InodeManager.Lengths.{length-content}
use se.InodeManager.Owned.{IsNew, HoldsFile-IsNew}
use se.InodeManager.Stored.{HoldsFile}
use se.InodeManager.Writing.{IsSound, Writes}
use se.InodeManager.Reading.{written_loads}
use se.Extent.State.{file_of, view, blocks_of, Owns, IsFile, IsGood, Others, Changes}

module _ {s : Store} (g : IsGood s) (inum : ℕ) {ino : Inode}
    (found : inode_at s inum ≡ some ino) where
  pub owns : (j : ℕ) → has (file_blocks s.blocks ino) j ≡ true → Owns s inum j
  unfolding Owns
  owns j m = ap (λ p. has (blocks_of s.blocks p) j) found ∙ m

  -- A block of the file may be freed.
  pub loose : (j : ℕ) → has (file_blocks s.blocks ino) j ≡ true → IsLoose (Others s inum) j
  unfolding Others
  loose j m =
      ((g.used inum j (owns j m)).0, λ (k, differ, own). differ (g.apart k inum j own (owns j m)))

  pub file-IsOwned : IsOwned (Others s inum) s ino
  file-IsOwned =
      let f : IsFile ino = g.files inum ino found in
      record {
        fits = f.size;
        slots = f.layout.slots;
        direct =
            All-has (IsLoose (Others s inum)) (take (rounds ndirect 0 ino.size) ino.direct)
              (λ j m. loose j (has-direct s.blocks ino j m));
        indirect = λ more. loose ino.indirect (has-indirect s.blocks ino more);
        words = λ more.
            All-has (IsLoose (Others s inum))
              (take (rounds nindirect (direct_end ino.size) ino.size) (listed s.blocks ino))
              (λ j m. loose j (has-listed s.blocks ino j more m));
      }

  pub file_loads : load_data ino s ≡ some (file_bytes s.blocks ino, s)
  file_loads =
      load_data-file_bytes ino s (g.files inum ino found).size (g.files inum ino found).layout.slots
        (λ j m. (loose j m).0.1)

  pub length-file : length (content s.blocks ino) ≡ ino.size
  length-file =
      length-content s.blocks ino (g.files inum ino found).size
        (g.files inum ino found).layout.slots (λ j m. (g.used inum j (owns j m)).2)

  pub view-found : view s inum ≡ some (record { type = ino.type; content = content s.blocks ino })
  unfolding view
  view-found = ap (file_of s.blocks) found

-- The data of the blocks of a file that nothing else uses.
module _ {s : Store} (g : IsGood s) (inum : ℕ) {old : Inode} (buf : Bytes)
    (w : Writes (Others s inum) inum old buf s) (f : IsFile old) (small : length buf ≤ max_size)
    (inside : inum ≤ s.last_inum) where
  holds_all : HoldsFile w.start w.store (buf ++ w.beyond) w.ino w.ino.size
  holds_all = subst (HoldsFile w.start w.store (buf ++ w.beyond) w.ino) (sym w.size) w.holds

  IsNew-blocks : (j : ℕ) → has (file_blocks w.store.blocks w.ino) j ≡ true → IsNew w.start w.store j
  IsNew-blocks j m = HoldsFile-IsNew w.start w.store (buf ++ w.beyond) w.ino j holds_all m

  other_marked : (j : ℕ) → Others s inum j → IsData j × (marked s j ≡ true)
  unfolding Others
  other_marked j (k, differ, own) = ((g.used k j own).0, (g.used k j own).1)

  write_new :
      (j : ℕ)
      → has (file_blocks w.store.blocks w.ino) j ≡ true
      → IsData j
        × (marked w.store j ≡ true)
        × (length (w.store.blocks j) ≡ block_size)
        × ¬ Others s inum j
  write_new j m =
      let n = IsNew-blocks j m in
      (
        n.inside,
        n.used,
        n.whole,
        λ p.
            let (d, used) = other_marked j p in
            let busy : marked w.start j ≡ true = w.spared j d p used in
            let free : marked w.start j ≡ false = n.fresh in ground (arith, sym busy ∙ free),
      )

  pub write-Changes : Changes s w.store inum (some w.ino)
  write-Changes = record {
    sound = w.sound;
    table = w.table;
    file = λ ino e.
        subst IsFile (some_inj e)
          (record { layout = w.fits; type = rw w.type f.type; size = rw w.size small });
    kept = λ j p. w.others j (other_marked j p).0 p (other_marked j p).1;
    new = write_new;
    later = omega (arith, w.last_inum);
    inside = omega (arith, w.last_inum, inside);
    counted = omega (arith, w.last_inum, g.counted);
  }

  -- The contents are the string that was written.
  pub write-content : content w.store.blocks w.ino ≡ buf
  unfolding content
  write-content =
      let (bytes, loads, same) = written_loads inum buf w small in
      let loads' : load_data w.ino w.store ≡ some (file_bytes w.store.blocks w.ino, w.store) =
        load_data-file_bytes w.ino w.store (omega (arith, w.size, small)) w.fits.slots
          (λ j m. (IsNew-blocks j m).inside.1) in
      let both : file_bytes w.store.blocks w.ino ≡ bytes =
        ap (λ p. p.0) (some_inj (sym loads' ∙ loads)) in
      ap (take w.ino.size) both ∙ (ap (λ n. take n bytes) w.size ∙ same)

abbrev pub stepped : Store → ℕ → ℕ → Store
stepped s tick last = record s { last_inum = last; tick = tick }

unfoldable pub slotted : Store → ℕ → ℕ → ℕ → Inode → Store
slotted s tick last inum ino = put_slot (stepped s tick last) inum ino

-- An inode is stored whose blocks, if it has any, are no other file's.
module _ {s : Store} (g : IsGood s) (tick last inum : ℕ) (ino : Inode) (f : IsFile ino)
    (typed : ino.type ≢ 0) (inside : inum < inode_num) (later : s.last_inum ≤ last)
    (within : inum ≤ last) (counted : last < inode_num)
    (own : (j : ℕ)
      → has (file_blocks s.blocks ino) j ≡ true
      → IsData j
        × (marked s j ≡ true)
        × (length (s.blocks j) ≡ block_size)
        × ¬ Others s inum j) where
  abbrev slot_store : Store
  slot_store = slotted s tick last inum ino

  stepped-IsSound : IsSound (stepped s tick last)
  stepped-IsSound = record {
    formatted = g.sound.formatted;
    valid = g.sound.valid;
    words = g.sound.words;
    clock = g.sound.clock;
  }

  stepped-marked : (j : ℕ) → marked (stepped s tick last) j ≡ marked s j
  unfolding marked
  stepped-marked j = refl

  slot_data :
      (j : ℕ) → IsData j → (marked slot_store j ≡ marked s j) × (slot_store.blocks j ≡ s.blocks j)
  unfolding slotted
  slot_data j d =
      let (used, block) = SameData-put_slot (stepped s tick last) inum ino inside j d in
      (used ∙ stepped-marked j, block)

  slot_same :
      (file_blocks slot_store.blocks ino ≡ file_blocks s.blocks ino)
      × (content slot_store.blocks ino ≡ content s.blocks ino)
  slot_same =
      file-same s.blocks slot_store.blocks ino f.layout.slots (λ j m. (slot_data j (own j m).0).1)

  pub slot-content : content slot_store.blocks ino ≡ content s.blocks ino
  slot-content = slot_same.1

  slot_kept :
      (j : ℕ) → Others s inum j → (marked slot_store j ≡ true) × (slot_store.blocks j ≡ s.blocks j)
  unfolding Others
  slot_kept j (k, differ, m) =
      let (d, used, whole) = g.used k j m in
      let (mark, block) = slot_data j d in (mark ∙ used, block)

  slot_new :
      (j : ℕ)
      → has (file_blocks slot_store.blocks ino) j ≡ true
      → IsData j
        × (marked slot_store j ≡ true)
        × (length (slot_store.blocks j) ≡ block_size)
        × ¬ Others s inum j
  slot_new j m =
      let (d, used, whole, other) = own j (sym (ap (λ l. has l j) slot_same.0) ∙ m) in
      let (mark, block) = slot_data j d in (d, mark ∙ used, ap length block ∙ whole, other)

  pub slot-Changes : Changes s slot_store inum (some ino)
  slot-Changes = record {
    sound =
        unfold slotted in (put_slot_frame (stepped s tick last) inum ino inside stepped-IsSound).0;
    table =
        unfold slotted in
        λ j.
          inode_at-put_slot (stepped s tick last) inum ino j inside f.layout typed
          ∙ ap (λ o. if inum == j then some ino else o)
              (inode_at-same s (stepped s tick last) j (λ _. refl));
    file = λ other e. subst IsFile (some_inj e) f;
    kept = slot_kept;
    new = slot_new;
    later = unfold slotted put_slot put_block in later;
    inside = unfold slotted put_slot put_block in within;
    counted = unfold slotted put_slot put_block in counted;
  }

  pub slot-room : free_count slot_store ≡ free_count s
  slot-room =
      unfold slotted in
      ((put_slot_frame (stepped s tick last) inum ino inside stepped-IsSound).1
        ∙ free_count-cong s (stepped s tick last) (λ j d. stepped-marked j))
