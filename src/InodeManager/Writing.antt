-- ===== src/InodeManager/Writing.antt =====
-- What `write_file` does to the disk.
use se.Base.{
  ℕ, ◌+◌, ◌≤◌, ◌<◌, ◌≡◌, ◌≢◌, refl, ap, ◌∙◌, Bytes, ◌++◌, true, arith, some, ◌==◌, if◌then◌else◌,
  length,
}
use se.Disk.{Store, inode_num, ask}
use se.BlockManager.Bitmap.{IsValid, marked}
use se.BlockManager.Count.{IsData, free_count, free_count-cong}
use se.BlockManager.Growth.{
  Grows, Grows-refl, Grows-ticked, ticked, put_block, put_block-IsValid, marked-ticked,
  free_count-put_block,
}
use se.BlockManager.Shrink.{Shrinks, Shrinks-count, Frees}
use se.Inode.{Inode}
use se.Inode.Layout.{IsInode, IsWord}
use se.InodeManager.{get_inode, put_inode, free_data, store_data, write_file, loop_size}
use se.InodeManager.Same.{HoldsFile-same, SameData-ticked, SameData-put_slot}
use se.InodeManager.Table.{
  slot, inode_at, IsFormatted, get_inode-inode_at, put_slot, put_inode-put_slot, inode_at-put_slot,
}
use se.InodeManager.Data.{max_size, IsOwned, free_data-Shrinks, file_blocks, loop_size_lem}
use se.InodeManager.Stored.{HoldsFile}
use se.InodeManager.Stores.{IsWorld, blocks_for, StoresData, store_data-StoresData}

-- A disk that the operations work on: formatted, its bitmap in order, and an environment whose
-- clock and memory give 32-bit words.
pub record IsSound (s : Store) : Type 0 where
  pub formatted : IsFormatted s
  pub valid : IsValid s
  pub words : IsWorld s.world
  pub clock : (k : ℕ) → IsWord (s.world k).now

write_file_step :
    (inum : ℕ) (buf : Bytes) (s : Store) {s1 s3 s5 : Store} {ino stored : Inode}
    → get_inode inum s ≡ some (some ino, s)
    → loop_size (length buf) ≡ length buf
    → free_data ino s ≡ some (tt, s1)
    → store_data (buf ++ (s1.world s1.tick).beyond) ino (length buf) (ticked s1 (s1.tick + 1))
      ≡ some (stored, s3)
    → put_inode inum
        (record stored {
          size = length buf;
          mtime = (s3.world s3.tick).now;
          ctime = (s3.world s3.tick).now;
        })
        (ticked s3 (s3.tick + 1))
      ≡ some (tt, s5)
    → write_file inum buf (length buf) s ≡ some (tt, s5)
unfolding write_file ask ticked
write_file_step inum buf s a same b c d = ground arith

-- What `write_file` has done: P are blocks in use by others, `start` is the disk after the old blocks
-- were freed, and `asked` tells which answer of the environment gave the time: the last one.
pub record Writes (P : ℕ → Type 0) (inum : ℕ) (old : Inode) (buf : Bytes) (s : Store) : Type 0 where
  pub store : Store
  pub ino : Inode
  pub runs : write_file inum buf (length buf) s ≡ some (tt, store)
  pub size : ino.size ≡ length buf
  pub type : ino.type ≡ old.type
  pub atime : ino.atime ≡ old.atime
  pub asked : ℕ
  pub tick : store.tick ≡ asked + 1
  pub mtime : ino.mtime ≡ (s.world asked).now
  pub ctime : ino.ctime ≡ (s.world asked).now
  pub fits : IsInode ino
  pub table : (j : ℕ) → inode_at store j ≡ (if inum == j then some ino else inode_at s j)
  pub sound : IsSound store
  pub others :
      (j : ℕ)
      → IsData j
      → P j
      → marked s j ≡ true
      → (marked store j ≡ true) × (store.blocks j ≡ s.blocks j)
  pub room : free_count s ≤ free_count store + blocks_for (length buf)
  pub start : Store
  pub freed : Frees (file_blocks s.blocks old) s start
  pub taken : free_count start ≤ free_count store + blocks_for (length buf)
  pub beyond : Bytes
  pub last_inum : store.last_inum ≡ s.last_inum
  pub spared : (j : ℕ) → IsData j → P j → marked s j ≡ true → marked start j ≡ true
  pub holds : HoldsFile start store (buf ++ beyond) ino (length buf)

-- An inode in the table has a type.
pub inode_at-type :
    (s : Store) (inum : ℕ) (ino : Inode)
    → inode_at s inum ≡ some ino
    → (inum < inode_num) × (ino.type ≢ 0)
unfolding inode_at
inode_at-type s inum ino e = ground arith

-- The table is the same where its blocks are.
pub inode_at-same :
    (s t : Store) (j : ℕ)
    → (j < inode_num → t.blocks (slot j) ≡ s.blocks (slot j))
    → inode_at t j ≡ inode_at s j
unfolding inode_at
inode_at-same s t j h = ground (arith, h)

pub put_slot_frame :
    (t : Store) (inum : ℕ) (ino : Inode)
    → inum < inode_num
    → IsSound t
    → IsSound (put_slot t inum ino) × (free_count (put_slot t inum ino) ≡ free_count t)
unfolding put_slot
put_slot_frame t inum ino h v = (
  record {
    formatted = unfold put_block in v.formatted;
    valid = put_block-IsValid t (slot inum) _ (omega arith) v.valid;
    words = unfold put_block in v.words;
    clock = unfold put_block in v.clock;
  },
  free_count-put_block t (slot inum) _ (omega arith),
)

-- Freeing, taking and storing the inode, one after the other.
module _ {P : ℕ → Type 0} {n : ℕ} {s s1 s4 : Store} (a : Shrinks P s s1) (k : ℕ) where
  table_after :
      Grows n (ticked s1 k) s4
      → (inum : ℕ) (ino : Inode) → inum < inode_num
      → IsInode ino
      → ino.type ≢ 0
      → (j : ℕ) → inode_at (put_slot s4 inum ino) j ≡ (if inum == j then some ino else inode_at s j)
  unfolding ticked
  table_after g inum ino inside fits typed j =
      rw
        (← inode_at-same s s4 j
          (λ lt. g.table (slot j) (omega arith, omega arith) ∙ a.kept (slot j) (omega arith)))
        (inode_at-put_slot s4 inum ino j inside fits typed)

  others_after :
      Grows n (ticked s1 k) s4
      → (inum : ℕ) (ino : Inode) → inum < inode_num
      → (j : ℕ) → IsData j
      → P j
      → marked s j ≡ true
      → (marked (put_slot s4 inum ino) j ≡ true) × ((put_slot s4 inum ino).blocks j ≡ s.blocks j)
  unfolding ticked
  others_after g inum ino inside j d p m =
      let spared : marked (ticked s1 k) j ≡ true = marked-ticked s1 k j ∙ a.spared j d p m in
      let (mark, block) = SameData-put_slot s4 inum ino inside j d in
      (mark ∙ g.marks j d spared, block ∙ g.kept j d spared ∙ a.kept j (omega arith))

-- A file whose blocks are its own is overwritten by any string of at most MAXFILE blocks, if that
-- many data blocks are free: `write_file` ends without a fault. The entry gets the size of the
-- string, blocks that hold it, and as mtime and ctime the time that the environment gave last; its
-- type and its atime stay, and so does every other entry. The old blocks of the file, and no other
-- data blocks, are freed before the new ones are taken; blocks in use by others keep their mark and
-- contents, and no more data blocks are taken than the string needs. The disk stays in order.
pub write_file-Writes :
    (P : ℕ → Type 0) (inum : ℕ) (old : Inode) (buf : Bytes) (s : Store)
    → IsSound s
    → inode_at s inum ≡ some old
    → IsInode old
    → IsOwned P s old
    → length buf ≤ max_size
    → blocks_for (length buf) ≤ free_count s
    → Writes P inum old buf s
unfolding ticked
write_file-Writes P inum old buf s sound found fits owned small room =
    let (inside, typed) = inode_at-type s inum old found in
    let (s1, freed, a, exact) = free_data-Shrinks P old s sound.valid owned in
    let s2 : Store = ticked s1 (s1.tick + 1) in
    let beyond : Bytes = (s1.world s1.tick).beyond in
    let valid2 : IsValid s2 = (Grows-ticked (s1.tick + 1) (Grows-refl s1 a.valid)).valid in
    let count2 : free_count s2 ≡ free_count s1 =
      free_count-cong s1 s2 (λ j d. marked-ticked s1 (s1.tick + 1) j) in
    let world2 : s2.world ≡ s.world = a.world in
    let r : StoresData (buf ++ beyond) old (length buf) s2 =
      store_data-StoresData (buf ++ beyond) old (length buf) s2 valid2 (rw world2 sound.words) small
        fits.slots fits.direct fits.indirect (omega (arith, count2, Shrinks-count P a)) in
    let s3 : Store = r.store in
    let s4 : Store = ticked s3 (s3.tick + 1) in
    let now : ℕ = (s3.world s3.tick).now in
    let ino : Inode = record old {
      size = length buf;
      mtime = now;
      ctime = now;
      direct = r.direct;
      indirect = r.indirect;
    } in
    let world3 : s3.world ≡ s.world = r.grows.world ∙ a.world in
    let small_now : IsWord now = rw world3 (sound.clock s3.tick) in
    let g : Grows (blocks_for (length buf)) s2 s4 = Grows-ticked (s3.tick + 1) r.grows in
    let formatted4 : IsFormatted s4 = ap (λ b. b.nblocks) (r.grows.sb ∙ a.sb) ∙ sound.formatted in
    let sound4 : IsSound s4 = record {
      formatted = formatted4;
      valid = g.valid;
      words = rw world3 sound.words;
      clock = rw world3 sound.clock;
    } in
    let (sound5, count5) = put_slot_frame s4 inum ino inside sound4 in
    let fits' : IsInode ino = record {
      type = fits.type;
      size = omega arith;
      atime = fits.atime;
      mtime = small_now;
      ctime = small_now;
      slots = r.holds.slots;
      direct = r.words;
      indirect = r.word;
    } in
    record {
      store = put_slot s4 inum ino;
      ino = ino;
      runs =
          write_file_step inum buf s
            (get_inode-inode_at s inum sound.formatted ∙ ap (λ p. some (p, s)) found)
            (loop_size_lem (length buf) (omega arith)) freed r.runs
            (put_inode-put_slot s4 inum ino formatted4 inside);
      size = refl;
      type = refl;
      atime = refl;
      asked = s3.tick;
      tick = unfold put_slot put_block in refl;
      mtime = ap (λ v. (v s3.tick).now) world3;
      ctime = ap (λ v. (v s3.tick).now) world3;
      fits = fits';
      table = table_after a (s1.tick + 1) g inum ino inside fits' typed;
      sound = sound5;
      others = others_after a (s1.tick + 1) g inum ino inside;
      room = omega (arith, count5, g.count, count2, Shrinks-count P a);
      start = s2;
      freed = λ j d. marked-ticked s1 (s1.tick + 1) j ∙ exact j d;
      taken = omega (arith, count5, g.count);
      beyond = beyond;
      last_inum = unfold put_slot put_block in (r.grows.last_inum ∙ a.last_inum);
      spared = λ j d p m. marked-ticked s1 (s1.tick + 1) j ∙ a.spared j d p m;
      holds = HoldsFile-same (SameData-put_slot s4 inum ino inside) (
          HoldsFile-same (SameData-ticked s3 (s3.tick + 1)) (record {
            slots = r.holds.slots;
            direct = r.holds.direct;
            indirect = r.holds.indirect;
          }));
    }
