-- ===== src/Extent/Operations.antt =====
-- The operations of the extent server on the table of files that the disk holds.
use se.Base.{
  ℕ, ◌+◌, ◌^◌, ◌≤◌, ◌<◌, ◌≡◌, ◌≢◌, refl, ap, ◌∙◌, sym, fun_ext, Bytes, true, inl, inr, arith, some,
  none, Option, Option-cases, ltb, Bool-cases, length, take, has, some_inj, ◌⊎◌,
}
use mathlib.Core.Path.{ap₂}
use se.Disk.{Store, block_size, inode_num}
use se.BlockManager.Bitmap.{marked}
use se.BlockManager.Count.{IsData, free_count}
use se.BlockManager.Growth.{ticked, put_block}
use se.Inode.{Inode}
use se.InodeManager.{Attr, getattr, attr_of, widen, read_file, write_file}
use se.InodeManager.Table.{inode_at, put_slot}
use se.InodeManager.Data.{max_size, file_blocks}
use se.InodeManager.Contents.{content, file_bytes}
use se.InodeManager.Stores.{blocks_for}
use se.InodeManager.Writing.{Writes, write_file-Writes, inode_at-type}
use se.InodeManager.Reading.{touched, after_read, read_file-after_read}
use se.InodeManager.Creating.{getattr-inode_at}
use se.Spec.{File, Files, put_file, type_of, size_of}
use se.Extent.{Status, low_id, zero_attr, server_put, server_get, server_getattr}
use se.Extent.RoundTrip.{server_put_step, server_get_step, server_getattr_step}
use se.Extent.State.{file_of, view, IsFile, IsGood, Others, Changes, Changes-IsGood, view-Changes}
use se.Extent.Changing.{
  owns, loose, file-IsOwned, file_loads, length-file, view-found, write-Changes, write-content,
  slotted, slot-Changes, slot-content, slot-room,
}

-- The inode of a file in the table.
pub record Found (s : Store) (id : ℕ) (f : File) : Type 0 where
  pub ino : Inode
  pub here : inode_at s id ≡ some ino
  pub file : f ≡ record { type = ino.type; content = content s.blocks ino }
  pub inside : id < inode_num
  pub typed : ino.type ≢ 0
  pub low : low_id id ≡ id

pub find_file : (s : Store) (id : ℕ) (f : File) → view s id ≡ some f → Found s id f
unfolding view
find_file s id f e = elim (Option-cases (inode_at s id)) [
  | inl gone ↦ absurd (nothing (sym (ap (file_of s.blocks) gone) ∙ e))
  | inr (ino, here) ↦
      let (inside, typed) = inode_at-type s id ino here in
      record {
        ino = ino;
        here = here;
        file = some_inj (sym e ∙ ap (file_of s.blocks) here);
        inside = inside;
        typed = typed;
        low = omega arith;
      }
]
  where
    nothing : none ≡ some f → ⊥
    nothing h = ground arith

pub found_inside :
    {s : Store} {id : ℕ} {ino : Inode} → IsGood s → inode_at s id ≡ some ino → id ≤ s.last_inum
found_inside {s} {id} g here = elim (Bool-cases (ltb s.last_inum id)) [
  | inl far ↦ absurd (nothing (sym (g.fresh id (ground arith)) ∙ here))
  | inr near ↦ ground arith
]
  where
    nothing : {ino : Inode} → none ≡ some ino → ⊥
    nothing h = ground arith

put_file_same : (v : Files) (id : ℕ) (o : Option File) → v id ≡ o → put_file v id o ≡ v
put_file_same v id o e = fun_ext λ j. ground arith

-- The blocks of a file are its own.
own_blocks :
    {s : Store} (g : IsGood s) (id : ℕ) {ino : Inode}
    → inode_at s id ≡ some ino
    → (j : ℕ) → has (file_blocks s.blocks ino) j ≡ true
    → IsData j × (marked s j ≡ true) × (length (s.blocks j) ≡ block_size) × ¬ Others s id j
own_blocks {s} g id here j m =
    let (d, used, whole) = g.used id j (owns g id here j m) in
    (d, used, whole, (loose g id here j m).1)

touched-content :
    (s : Store) (ino : Inode) → content s.blocks (touched s ino) ≡ content s.blocks ino
unfolding content file_bytes
touched-content s ino = refl

touched_own :
    {s : Store} (g : IsGood s) (id : ℕ) (ino : Inode)
    → ((j : ℕ)
        → has (file_blocks s.blocks ino) j ≡ true
        → IsData j × (marked s j ≡ true) × (length (s.blocks j) ≡ block_size) × ¬ Others s id j)
    → (j : ℕ) → has (file_blocks s.blocks (touched s ino)) j ≡ true
    → IsData j × (marked s j ≡ true) × (length (s.blocks j) ≡ block_size) × ¬ Others s id j
unfolding file_blocks
touched_own g id ino h = h

pub slotted-last :
    (s : Store) (tick last id : ℕ) (ino : Inode) → (slotted s tick last id ino).last_inum ≡ last
unfolding slotted put_slot put_block
slotted-last s tick last id ino = refl

after_read-slotted :
    (s : Store) (id : ℕ) (ino : Inode)
    → after_read s id ino ≡ slotted s (s.tick + 1) s.last_inum id (touched s ino)
unfolding after_read slotted ticked
after_read-slotted s id ino = refl

get_runs :
    (s : Store) (id : ℕ) (f : File)
    → IsGood s
    → (p : Found s id f)
    → server_get id s
      ≡ some ((Status.ok, f.content), slotted s (s.tick + 1) s.last_inum id (touched s p.ino))
get_runs s id f g p =
    let text : Bytes = content s.blocks p.ino in
    let size : length text ≡ p.ino.size = length-file g id p.here in
    let runs =
      read_file-after_read s id p.ino (file_bytes s.blocks p.ino) g.sound p.here
        (g.files id p.ino p.here).size (file_loads g id p.here) in
    let cut : take (length text) (file_bytes s.blocks p.ino) ≡ text =
      ap (λ n. take n (file_bytes s.blocks p.ino)) size ∙ unfold content in refl in
    let got : server_get id s ≡ some ((Status.ok, text), after_read s id p.ino) =
      server_get_step id text s
        (ap (λ i. read_file i s) p.low
          ∙ (runs
              ∙ ap (λ n. some ((file_bytes s.blocks p.ino, n), after_read s id p.ino)) (sym size)))
        (omega (arith, size, (g.files id p.ino p.here).size)) cut in
    got
    ∙ ap₂ (λ b t. some ((Status.ok, b), t)) (ap (λ x. x.content) (sym p.file))
        (after_read-slotted s id p.ino)

-- `get` gives the contents, and changes nothing in the table.
pub server_get-view :
    (s : Store) (id : ℕ) (f : File)
    → IsGood s
    → view s id ≡ some f
    → (t : Store) × (server_get id s ≡ some ((Status.ok, f.content), t))
      × IsGood t
      × (view t ≡ view s)
      × (free_count t ≡ free_count s)
      × (t.last_inum ≡ s.last_inum)
server_get-view s id f g e =
    let p = find_file s id f e in
    let file : IsFile p.ino = g.files id p.ino p.here in
    let seen : IsFile (touched s p.ino) = record {
      layout = record {
        type = file.layout.type;
        size = file.layout.size;
        atime = g.sound.clock s.tick;
        mtime = file.layout.mtime;
        ctime = file.layout.ctime;
        slots = file.layout.slots;
        direct = file.layout.direct;
        indirect = file.layout.indirect;
      };
      type = file.type;
      size = file.size;
    } in
    let own = own_blocks g id p.here in
    let near : id ≤ s.last_inum = found_inside g p.here in
    let c =
      slot-Changes g (s.tick + 1) s.last_inum id (touched s p.ino) seen p.typed p.inside
        (omega arith) near g.counted (touched_own g id p.ino own) in
    let bytes =
      slot-content g (s.tick + 1) s.last_inum id (touched s p.ino) seen p.typed p.inside
        (omega arith) near g.counted (touched_own g id p.ino own) in
    let room =
      slot-room g (s.tick + 1) s.last_inum id (touched s p.ino) seen p.typed p.inside (omega arith)
        near g.counted (touched_own g id p.ino own) in
    let t : Store = slotted s (s.tick + 1) s.last_inum id (touched s p.ino) in
    let same : file_of t.blocks (some (touched s p.ino)) ≡ view s id =
      ap (λ b. some (record { type = p.ino.type; content = b })) (bytes ∙ touched-content s p.ino)
      ∙ sym (view-found g id p.here) in
    (
      t,
      get_runs s id f g p,
      Changes-IsGood g c,
      view-Changes g c
          ∙ (ap (put_file (view s) id) same ∙ put_file_same (view s) id (view s id) refl),
      room,
      slotted-last s (s.tick + 1) s.last_inum id (touched s p.ino),
    )

-- `getattr` gives the type and the size, and zeros for a number that no file has.
pub server_getattr-view :
    (s : Store) (id : ℕ)
    → IsGood s
    → id < 2 ^ 31
    → (a : Attr) × (server_getattr id s ≡ some ((Status.ok, a), s))
      × (a.type ≡ type_of (view s id))
      × (a.size ≡ size_of (view s id))
unfolding view
server_getattr-view s id g small =
    let low : low_id id ≡ id = omega arith in
    let runs : server_getattr id s ≡ some ((Status.ok, attr_of (inode_at s id) zero_attr), s) =
      server_getattr_step id s
        (ap (λ i. getattr i zero_attr s) low ∙ getattr-inode_at id zero_attr s g.sound.formatted) in
    let (type, size) = seen (Option-cases (inode_at s id)) in
    (attr_of (inode_at s id) zero_attr, runs, type, size)
  where
    short : {n : ℕ} → n < 2 ^ 15 → widen n ≡ n
    short h = ground arith

    seen :
        (inode_at s id ≡ none) ⊎ ((ino : Inode) × (inode_at s id ≡ some ino))
        → ((attr_of (inode_at s id) zero_attr).type ≡ type_of (file_of s.blocks (inode_at s id)))
          × ((attr_of (inode_at s id) zero_attr).size ≡ size_of (file_of s.blocks (inode_at s id)))
    seen (inl e) = rw e (refl, refl)
    seen (inr (ino, e)) =
        let f : IsFile ino = g.files id ino e in rw e (short f.type, sym (length-file g id e))

-- `put` gives the file new contents.
pub server_put-put_file :
    (s : Store) (id : ℕ) (f : File) (buf : Bytes)
    → IsGood s
    → view s id ≡ some f
    → length buf ≤ max_size
    → blocks_for (length buf) ≤ free_count s
    → (t : Store) × (server_put id buf s ≡ some (Status.ok, t))
      × IsGood t
      × (view t ≡ put_file (view s) id (some (record f { content = buf })))
      × (free_count s ≤ free_count t + blocks_for (length buf))
      × (t.last_inum ≡ s.last_inum)
server_put-put_file s id f buf g e small room =
    let p = find_file s id f e in
    let old : IsFile p.ino = g.files id p.ino p.here in
    let w : Writes (Others s id) id p.ino buf s =
      write_file-Writes (Others s id) id p.ino buf s g.sound p.here old.layout
        (file-IsOwned g id p.here) small room in
    let c : Changes s w.store id (some w.ino) =
      write-Changes g id buf w old small (found_inside g p.here) in
    let now : file_of w.store.blocks (some w.ino) ≡ some (record f { content = buf }) =
      ap₂ (λ k b. some (record { type = k; content = b })) (w.type ∙ ap (λ x. x.type) (sym p.file))
        (write-content g id buf w old small (found_inside g p.here)) in
    (
      w.store,
      server_put_step id buf s small (ap (λ i. write_file i buf (length buf) s) p.low ∙ w.runs),
      Changes-IsGood g c,
      view-Changes g c ∙ ap (put_file (view s) id) now,
      w.room,
      w.last_inum,
    )
