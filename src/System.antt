-- ===== src/System.antt =====
-- The whole program: yfs_client over extent_client, extent_server and inode_manager on a disk that
-- was formatted just before.
use se.Base.{
  ℕ, ◌+◌, ◌≤◌, ◌≡◌, ◌≢◌, refl, ap, ◌∙◌, sym, subst, Bytes, List, [], ◌∷◌, true, false, arith, some,
  Option, length, if◌then◌else◌, ◌==◌, some_inj,
}
use se.Disk.{Store, World}
use se.BlockManager.Count.{free_count}
use se.InodeManager.{t_dir, t_file, boot}
use se.InodeManager.Loops.{rounds}
use se.InodeManager.Data.{max_size}
use se.InodeManager.Stores.{blocks_for}
use se.Directory.{Dirent, print_entries, find}
use se.Directory.Parse.{NoSlash, parse_entries-print_entries}
use se.Directory.Find.{find-snoc}
use se.Content.{splice, bytes_written}
use se.Content.Write.{length-splice}
use se.Spec.{File, Files}
use se.Extent.{Status, disk_client}
use se.Extent.State.{view, IsGood}
use se.Extent.Refines.{disk_laws, blocks_for_mono, numbers_left}
use se.Extent.Booting.{IsEnvironment, boot-IsGood}
use se.Yfs.{make, lookup, read, write, found_inum}
use se.Yfs.Lookup.{IsDir, lookup-IsDir}
use se.Yfs.Create.{make_fresh, distinct}
use se.Yfs.Data.{read-write}

-- No file takes more than 229 blocks.
pub blocks_for_bound : (n : ℕ) → n ≤ max_size → blocks_for n ≤ 229
blocks_for_bound n h = omega (arith, blocks_for_mono n max_size h, largest)
  where
    largest : blocks_for max_size ≡ 229
    largest = unfold blocks_for rounds in refl

made_file :
    (v w : Files) (inum : ℕ) (dir f : File) (other : Option File)
    → inum ≢ 1
    → w inum ≡ (if 1 == inum then some dir else if inum == inum then some f else other)
    → w inum ≡ some f
made_file v w inum dir f other differ e = e ∙ ground arith

-- From the start on a formatted disk, a client of yfs_client can make a file in the root directory,
-- find its number under its name, write bytes into it at any offset and read the same bytes back;
-- every call answers OK. The name is not empty, has no slash and at most 1000 bytes, the write ends
-- within the largest size of a file, and the environment gives 32-bit words.
pub boot-read-write :
    (world : ℕ → World) (s : Store) (name source : Bytes) (off : ℕ)
    → IsEnvironment world
    → boot world ≡ some s
    → name ≢ []
    → NoSlash name
    → length name ≤ 1000
    → off + length source ≤ max_size
    → (t u v w : Store) × (inum : ℕ) × (make disk_client t_file 1 name false 0 s
        ≡ some ((Status.ok, inum), t))
      × (lookup disk_client 1 name false 0 t ≡ some ((Status.ok, true, inum), u))
      × (write disk_client inum (length source) off source 0 u
          ≡ some ((Status.ok, bytes_written [] off source), v))
      × (read disk_client inum (length source) off [] v ≡ some ((Status.ok, source), w))
unfolding disk_laws print_entries
boot-read-write world s name source off h e some_name no_slash short inside =
    let (s', started, good', files', free', left') = boot-IsGood world h in
    let same : s' ≡ s = some_inj (sym started ∙ e) in
    let good : IsGood s = subst IsGood same good' in
    let root : view s 1 ≡ some (record { type = t_dir; content = [] }) =
      ap (λ x. view x 1) (sym same) ∙ ap (λ v. v 1) files' in
    let free : free_count s ≡ 24576 = ap free_count (sym same) ∙ free' in
    let left : numbers_left s ≡ 1022 = ap numbers_left (sym same) ∙ left' in
    let fits : blocks_for (0 + length name + 22) ≤ free_count s =
      omega (arith, free, blocks_for_bound (0 + length name + 22) (omega (arith, short))) in
    let (t, inum, made, good_t, low, unused, files, space) =
      make_fresh disk_client disk_laws s t_file 1 [] name false 0 good root tt (unfold find in refl)
        (omega (arith, left)) (omega arith) (omega arith) (omega (arith, short)) fits in
    let entry : List Dirent = record { name = name; inum = inum } ∷ [] in
    let dir : IsDir disk_client disk_laws t 1 (print_entries entry) entry = record {
      file = files 1;
      entries = parse_entries-print_entries entry ((some_name, no_slash, low), tt);
    } in
    let (u, looked, kept) =
      lookup-IsDir disk_client disk_laws t 1 _ entry name false 0 good_t dir in
    let there : view u inum ≡ some (record { type = t_file; content = [] }) =
      ap (λ v. v inum) kept.files
      ∙ made_file (view s) (view t) inum _ _ _ (distinct (view s) _ unused root) (files inum) in
    let size : length (splice [] off source) ≤ max_size =
      omega (arith, length-splice [] off source, inside) in
    let spent : free_count s ≤ free_count t + blocks_for (0 + length name + 22) = space in
    let kept_room : free_count u ≡ free_count t = kept.space in
    let room : blocks_for (length (splice [] off source)) ≤ free_count u = omega (
      arith,
      kept_room,
      spent,
      free,
      blocks_for_bound _ size,
      blocks_for_bound (0 + length name + 22) (omega (arith, short)),
    ) in
    let (v, w, wrote, found, _) =
      read-write disk_client disk_laws u inum off 0 source [] [] kept.good there size room in
    (
      t,
      u,
      v,
      w,
      inum,
      made,
      looked
          ∙ ap (λ o. some ((Status.ok, (found_inum o 0).0, (found_inum o 0).1), u))
              (find-snoc name [] inum (unfold find in refl)),
      wrote,
      found,
    )
