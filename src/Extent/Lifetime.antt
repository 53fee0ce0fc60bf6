-- ===== src/Extent/Lifetime.antt =====
-- `create` and `remove` of the extent server on the table of files that the disk holds.
use se.Base.{
  ℕ, ◌+◌, ◌^◌, ◌≤◌, ◌<◌, ◌≡◌, refl, ap, ◌∙◌, sym, Bytes, [], true, arith, some, none, length, has,
}
use mathlib.Core.Path.{ap₂}
use se.Disk.{Store, block_size, inode_num}
use se.BlockManager.Bitmap.{marked}
use se.BlockManager.Count.{IsData, free_count}
use se.Inode.{Inode}
use se.InodeManager.{remove_file}
use se.InodeManager.Loops.{rounds}
use se.InodeManager.Contents.{content}
use se.InodeManager.Data.{file_blocks}
use se.InodeManager.Creating.{new_inode, new_inode-IsInode, alloc_inode-put_slot}
use se.InodeManager.Removing.{remove_file-inode_at}
use se.Spec.{File, put_file}
use se.Extent.{Status, low_id, server_create, server_remove}
use se.Extent.RoundTrip.{server_create_step}
use se.Extent.State.{file_of, view, IsFile, IsGood, Others, Changes, Changes-IsGood, view-Changes}
use se.Extent.Changing.{file-IsOwned, slotted, slot-Changes, slot-room}
use se.Extent.Operations.{find_file, found_inside, slotted-last}

server_remove_step :
    (id : ℕ) (s : Store) {t : Store}
    → remove_file (low_id id) s ≡ some (tt, t)
    → server_remove id s ≡ some (Status.ok, t)
unfolding server_remove
server_remove_step id s e = ground arith

no_blocks : (j : ℕ) → has [] j ≡ true → ⊥
unfolding has
no_blocks j h = ground arith

-- `remove` takes the file out of the table.
pub server_remove-put_file :
    (s : Store) (id : ℕ) (f : File)
    → IsGood s
    → view s id ≡ some f
    → (t : Store) × (server_remove id s ≡ some (Status.ok, t))
      × IsGood t
      × (view t ≡ put_file (view s) id none)
      × (free_count s ≤ free_count t)
      × (t.last_inum ≡ s.last_inum)
unfolding Others
server_remove-put_file s id f g e =
    let p = find_file s id f e in
    let (t, runs, sound, table, others, _, room, last) =
      remove_file-inode_at (Others s id) id p.ino s g.sound p.here (file-IsOwned g id p.here) in
    let c : Changes s t id none = record {
      sound = sound;
      table = table;
      file = λ ino h. absurd (nothing h);
      kept = λ j o. others j (g.used o.0 j o.2).0 o (g.used o.0 j o.2).1;
      new = λ j h. absurd (no_blocks j h);
      later = omega (arith, last);
      inside = omega (arith, last, found_inside g p.here);
      counted = omega (arith, last, g.counted);
    } in
    (
      t,
      server_remove_step id s (ap (λ i. remove_file i s) p.low ∙ runs),
      Changes-IsGood g c,
      view-Changes g c,
      room,
      last,
    )
  where
    nothing : {ino : Inode} → none ≡ some ino → ⊥
    nothing h = ground arith

-- A new inode is a file with no blocks.
new_blocks : (blocks : ℕ → Bytes) (ino : Inode) → ino.size ≡ 0 → file_blocks blocks ino ≡ []
unfolding file_blocks rounds
new_blocks blocks ino e = rw e refl

new_own :
    (s : Store) (id : ℕ) (ino : Inode)
    → ino.size ≡ 0
    → (j : ℕ) → has (file_blocks s.blocks ino) j ≡ true
    → IsData j × (marked s j ≡ true) × (length (s.blocks j) ≡ block_size) × ¬ Others s id j
new_own s id ino e j m =
    absurd (no_blocks j (sym (ap (λ l. has l j) (new_blocks s.blocks ino e)) ∙ m))

new_content : (blocks : ℕ → Bytes) (ino : Inode) → ino.size ≡ 0 → content blocks ino ≡ []
unfolding content
new_content blocks ino e = rw e refl

-- While there are numbers left, `create` makes an empty file under the next number, which no file
-- had.
pub server_create-put_file :
    (s : Store) (type : ℕ)
    → IsGood s
    → s.last_inum + 1 < inode_num
    → 0 < type
    → type < 2 ^ 15
    → (t : Store) × (server_create type s ≡ some ((Status.ok, s.last_inum + 1), t))
      × IsGood t
      × (view s (s.last_inum + 1) ≡ none)
      × (view t ≡ put_file (view s) (s.last_inum + 1) (some (record { type = type; content = [] })))
      × (free_count t ≡ free_count s)
      × (t.last_inum ≡ s.last_inum + 1)
server_create-put_file s type g left positive small =
    let id : ℕ = s.last_inum + 1 in
    let ino : Inode = new_inode type (s.world s.tick) in
    let same_type : ino.type ≡ type = omega arith in
    let f : IsFile ino = record {
      layout =
          new_inode-IsInode type (s.world s.tick) (g.sound.words s.tick) (g.sound.clock s.tick);
      type = omega arith;
      size = omega arith;
    } in
    let t : Store = slotted s (s.tick + 1) id id ino in
    let c : Changes s t id (some ino) =
      slot-Changes g (s.tick + 1) id id ino f (omega arith) left (omega arith) (omega arith) left
        (new_own s id ino refl) in
    let room =
      slot-room g (s.tick + 1) id id ino f (omega arith) left (omega arith) (omega arith) left
        (new_own s id ino refl) in
    let file : file_of t.blocks (some ino) ≡ some (record { type = type; content = [] }) =
      ap₂ (λ k b. some (record { type = k; content = b })) same_type
        (new_content t.blocks ino refl) in
    (
      t,
      server_create_step type s (alloc_inode-put_slot type s g.sound left ∙ unfold slotted in refl),
      Changes-IsGood g c,
      unfold view in ap (file_of s.blocks) (g.fresh id (omega arith)),
      view-Changes g c ∙ ap (put_file (view s) id) file,
      room,
      slotted-last s (s.tick + 1) id id ino,
    )
