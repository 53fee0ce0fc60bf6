-- ===== src/Extent/Refines.antt =====
-- The extent client over the server's disk keeps the promise of Spec.antt: for its clients the disk
-- is a table of files.
use se.Base.{
  ℕ, zero, suc, ◌+◌, ◌-◌, ◌*◌, ◌^◌, ◌≤◌, ◌<◌, ◌≡◌, refl, inl, inr, arith, some, ltb, Bool-cases,
}
use se.Disk.{Store, inode_num, block_size}
use se.BlockManager.Count.{free_count}
use se.Inode.{ndirect}
use se.InodeManager.{nindirect}
use se.InodeManager.Loops.{rounds}
use se.InodeManager.Data.{max_size, direct_end}
use se.InodeManager.Stores.{blocks_for}
use se.Extent.{disk_client}
use se.Spec.{File, Laws}
use se.Extent.State.{view, IsGood}
use se.Extent.Operations.{find_file, server_get-view, server_getattr-view, server_put-put_file}
use se.Extent.Lifetime.{server_create-put_file, server_remove-put_file}

rounds_mono : (n pos k m : ℕ) → k ≤ m → rounds n pos k ≤ rounds n pos m
unfolding rounds
rounds_mono zero pos k m h = omega arith
rounds_mono (suc n) pos k m h = ground (arith, rounds_mono n (pos + block_size) k m h)

rounds_full :
    (n pos k m : ℕ)
    → k ≤ m
    → pos + block_size * rounds n pos k < k
    → rounds n pos m ≡ rounds n pos k
unfolding rounds
rounds_full zero pos k m h far = refl
rounds_full (suc n) pos k m h far = ground (arith, rounds_full n (pos + block_size) k m h)

-- A longer string takes no fewer blocks.
pub blocks_for_mono : (k m : ℕ) → k ≤ m → blocks_for k ≤ blocks_for m
unfolding blocks_for
blocks_for_mono k m h = elim (Bool-cases (ltb (direct_end k) k)) [
  | inr small ↦ ground (arith, rounds_mono ndirect 0 k m h)
  | inl large ↦
      let full : rounds ndirect 0 m ≡ rounds ndirect 0 k =
        rounds_full ndirect 0 k m h (ground arith) in
      ground (arith, rounds_mono nindirect (direct_end k) k m h)
]

-- The numbers that are left.
abbrev pub numbers_left : Store → ℕ
numbers_left s = inode_num - (s.last_inum + 1)

pub same_left : (s t : Store) → t.last_inum ≡ s.last_inum → numbers_left t ≡ numbers_left s
same_left s t e = omega (arith, e)

pub disk_low : (s : Store) (id : ℕ) (f : File) → view s id ≡ some f → id < 2 ^ 31
disk_low s id f e = omega (arith, (find_file s id f e).inside)

pub one_less :
    (s t : Store)
    → s.last_inum < inode_num
    → 0 < numbers_left s
    → t.last_inum ≡ s.last_inum + 1
    → (s.last_inum + 1 < inode_num)
      × (s.last_inum + 1 < 2 ^ 31)
      × (numbers_left s ≡ numbers_left t + 1)
one_less s t h left e = (omega arith, omega arith, omega (arith, e))

pub room_for_one : (s : Store) → 0 < numbers_left s → s.last_inum + 1 < inode_num
room_for_one s h = omega arith

unfoldable pub disk_laws : Laws disk_client
disk_laws = record {
  IsGood = IsGood;
  view = view;
  room = free_count;
  slots = numbers_left;
  cost = blocks_for;
  max_len = max_size;
  cost_law = blocks_for_mono;
  low_law = λ s id f g e. disk_low s id f e;
  getattr_law = λ s id g small.
      let (a, runs, type, size) = server_getattr-view s id g small in
      (s, a, runs, type, size, g, refl, refl, refl);
  get_law = λ s id f g e.
      let (t, runs, good, files, room, last) = server_get-view s id f g e in
      (t, runs, good, files, room, same_left s t last);
  put_law = λ s id f buf g e small fits.
      let (t, runs, good, files, room, last) = server_put-put_file s id f buf g e small fits in
      (t, runs, good, files, room, same_left s t last);
  create_law = λ s type g left positive small.
      let (t, runs, good, unused, files, room, last) =
        server_create-put_file s type g (room_for_one s left) positive small in
      let (_, low, less) = one_less s t g.counted left last in
      (t, s.last_inum + 1, runs, good, low, unused, files, room, less);
  remove_law = λ s id f g e.
      let (t, runs, good, files, room, last) = server_remove-put_file s id f g e in
      (t, runs, good, files, room, same_left s t last);
}
