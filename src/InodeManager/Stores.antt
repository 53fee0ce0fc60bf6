-- ===== src/InodeManager/Stores.antt =====
-- `store_data` ends with the whole string stored, where enough data blocks are free.
use se.Base.{
  ℕ, suc, zero, ◌+◌, ◌≤◌, ◌≡◌, ◌≢◌, refl, ap, ◌∙◌, Bytes, List, [], ◌∷◌, ◌++◌, true, false, inl,
  inr, arith, some, ltb, Bool-cases, if◌then◌else◌, length, take, All, replicate, length-append,
  length-take, length-replicate, subst, All-append, All-take, All-replicate,
}
use se.Disk.{Store, World, block_size, write_block, ask}
use se.BlockManager.{alloc_block}
use se.BlockManager.Bitmap.{IsValid, marked}
use se.BlockManager.Count.{IsData, free_count}
use se.BlockManager.Growth.{
  Grows, Grows-refl, Grows-trans, Grows-ticked, ticked, put_block, write_block-put_block,
  Grows-put_block, alloc_block-Grows, marked-put_block, blocks-put_block, marked-ticked,
  put_block_self,
}
use se.Inode.{Inode, ndirect, from_words}
use se.InodeManager.{nindirect, store_blocks, store_indirect, store_data}
use se.InodeManager.Loops.{IsWord, rounds, Holds, Holds-later, Taken, Stores, store_blocks-Stores}
use se.InodeManager.Data.{max_size, direct_end, indirect_end}
use se.InodeManager.Stored.{HoldsIndirect, HoldsFile, HoldsIndirect-later}

-- A write to a block that was in use at the start leaves those that were taken since.
Taken-put_block :
    {s t : Store} {x : ℕ} {content : Bytes} (id : ℕ) (buf : Bytes)
    → IsData id
    → marked s id ≡ true
    → Taken s t x content
    → Taken s (put_block t id buf) x content
Taken-put_block {s} {t} {x} id buf d used k =
    let other : id ≢ x = λ same. ground (arith, ap (marked s) same, k.fresh) in
    record {
      inside = k.inside;
      fresh = k.fresh;
      used = marked-put_block t id buf x (omega arith) k.inside ∙ k.used;
      content = ground (arith, blocks-put_block t id buf x, k.content);
    }

Holds-put_block :
    (s t : Store) (memory : Bytes) (n : ℕ) (ids : List ℕ) (pos id : ℕ) (buf : Bytes)
    → IsData id
    → marked s id ≡ true
    → Holds s t memory n ids pos
    → Holds s (put_block t id buf) memory n ids pos
Holds-put_block s t memory zero ids pos id buf d used h = tt
Holds-put_block s t memory (suc n) [] pos id buf d used h = h
Holds-put_block s t memory (suc n) (x ∷ ids) pos id buf d used h = (
  Taken-put_block id buf d used h.0,
  Holds-put_block s t memory n ids (pos + block_size) id buf d used h.1,
)

-- `malloc` leaves 32-bit words in a buffer.
abbrev pub IsWorld : (ℕ → World) → Type 0
IsWorld world = (k : ℕ) → All IsWord (world k).junk

-- The buffer for the addresses in the indirect block.
abbrev pub fresh_words : World → ℕ → List ℕ
fresh_words w n = take n (w.junk ++ replicate n 0)

pub fresh_words-IsWord : (w : World) (n : ℕ) → All IsWord w.junk → All IsWord (fresh_words w n)
fresh_words-IsWord w n h =
    All-take IsWord n (w.junk ++ replicate n 0)
      (All-append IsWord w.junk (replicate n 0) h (All-replicate IsWord n 0 (omega arith)))

pub length-fresh_words : (w : World) (n : ℕ) → length (fresh_words w n) ≡ n
length-fresh_words w n = omega (
  arith,
  length-take n (w.junk ++ replicate n 0),
  length-append w.junk (replicate n 0),
  length-replicate {A = ℕ} n 0,
)

store_indirect_step :
    (memory : Bytes) (pos size : ℕ) (s : Store) {t u w : Store} {id end : ℕ} {words : List ℕ}
    → alloc_block s ≡ some (id, t)
    → store_blocks memory (fresh_words (t.world t.tick) nindirect) pos size (ticked t (t.tick + 1))
      ≡ some ((words, end), u)
    → size ≤ end
    → write_block id (from_words words) u ≡ some (tt, w)
    → store_indirect memory pos size s ≡ some (id, w)
unfolding store_indirect ask ticked
store_indirect_step memory pos size s a b h c = ground arith

-- What `store_indirect` has done.
record StoresIndirect (memory : Bytes) (size : ℕ) (s : Store) : Type 0 where
  id : ℕ
  store : Store
  runs : store_indirect memory (direct_end size) size s ≡ some (id, store)
  grows : Grows (1 + rounds nindirect (direct_end size) size) s store
  holds : HoldsIndirect s store memory id size

store_indirect-StoresIndirect :
    (memory : Bytes) (size : ℕ) (s : Store)
    → IsValid s
    → IsWorld s.world
    → size ≤ max_size
    → ltb (direct_end size) size ≡ true
    → 1 + rounds nindirect (direct_end size) size ≤ free_count s
    → StoresIndirect memory size s
store_indirect-StoresIndirect memory size s v world fits lt room =
    let (id, t, a, d, free, set, g) = alloc_block-Grows s v (omega arith) in
    let t' : Store = ticked t (t.tick + 1) in
    let g' : Grows 1 s t' = Grows-ticked (t.tick + 1) g in
    let pos : ℕ = direct_end size in
    let w : World = t.world t.tick in
    let buffer : List ℕ = fresh_words w nindirect in
    let count : length buffer ≡ nindirect = length-fresh_words w nindirect in
    let r : Stores memory buffer pos size t' =
      store_blocks-Stores memory buffer pos size t' g'.valid (rw count (omega (arith, g'.count)))
        (fresh_words-IsWord w nindirect (rw g.world (world t.tick))) in
    let set' : marked t' id ≡ true = marked-ticked t (t.tick + 1) id ∙ set in
    let buf : Bytes = from_words r.ids in
    let grown : Grows (1 + rounds nindirect pos size) s (put_block r.store id buf) =
      Grows-put_block id buf (Grows-trans g' (rw count at r.grows)) d free in
    record {
      id = id;
      store = put_block r.store id buf;
      runs =
          store_indirect_step memory pos size s a r.runs (rw count (indirect_end size fits lt))
            (write_block-put_block r.store id buf d.1);
      grows = grown;
      holds = record {
        words = r.ids;
        count = r.count ∙ count;
        small = r.words;
        block = record {
          inside = d;
          fresh = free;
          used = marked-put_block r.store id buf id (omega arith) d ∙ r.grows.marks id d set';
          content = put_block_self r.store id buf;
        };
        data_blocks =
            Holds-later memory _ r.ids pos g' (Grows-refl (put_block r.store id buf) grown.valid)
              (Holds-put_block t' r.store memory _ r.ids pos id buf d set' (rw count at r.holds));
      };
    }

-- The data blocks that a file of this size takes, the indirect block among them.
unfoldable pub blocks_for : ℕ → ℕ
blocks_for size =
    rounds ndirect 0 size
    + (if ltb (direct_end size) size then 1 + rounds nindirect (direct_end size) size else 0)

-- What `store_data` has done.
pub record StoresData (memory : Bytes) (ino : Inode) (size : ℕ) (s : Store) : Type 0 where
  pub direct : List ℕ
  pub indirect : ℕ
  pub store : Store
  pub runs :
      store_data memory ino size s
      ≡ some (record ino { direct = direct; indirect = indirect }, store)
  pub grows : Grows (blocks_for size) s store
  pub holds : HoldsFile s store memory (record ino { direct = direct; indirect = indirect }) size
  pub words : All IsWord direct
  pub word : IsWord indirect

store_data_step :
    (memory : Bytes) (ino : Inode) (size : ℕ) (s : Store) {t u : Store} {direct : List ℕ}
    {end indirect : ℕ}
    → store_blocks memory ino.direct 0 size s ≡ some ((direct, end), t)
    → (ltb end size ≡ true → store_indirect memory end size t ≡ some (indirect, u))
    → (ltb end size ≡ false → (u ≡ t) × (indirect ≡ ino.indirect))
    → store_data memory ino size s ≡ some (record ino { direct = direct; indirect = indirect }, u)
unfolding store_data
store_data_step memory ino size s {t} {u} {direct} {end} {indirect} a b c =
    elim (Bool-cases (ltb end size)) [
      | inl more ↦ ground (arith, b more)
      | inr done ↦ ground (arith, c done)
    ]

store_data-more :
    (memory : Bytes) (ino : Inode) (size : ℕ) (s : Store)
    → IsValid s
    → length ino.direct ≡ ndirect
    → (r : Stores memory ino.direct 0 size s) → ltb (direct_end size) size ≡ true
    → StoresIndirect memory size r.store
    → StoresData memory ino size s
unfolding blocks_for
store_data-more memory ino size s v slots r more q = record {
  direct = r.ids;
  indirect = q.id;
  store = q.store;
  runs = store_data_step memory ino size s (rw slots at r.runs) (λ _. q.runs) (λ done. cc);
  grows = rw more (Grows-trans (rw slots at r.grows) q.grows);
  holds = record {
    slots = r.count ∙ slots;
    direct = Holds-later memory _ r.ids 0 (Grows-refl s v) q.grows (rw slots at r.holds);
    indirect = λ _. HoldsIndirect-later r.grows (Grows-refl q.store q.grows.valid) q.holds;
  };
  words = r.words;
  word = omega (arith, q.holds.block.inside.1);
}

store_data-done :
    (memory : Bytes) (ino : Inode) (size : ℕ) (s : Store)
    → length ino.direct ≡ ndirect
    → IsWord ino.indirect
    → (r : Stores memory ino.direct 0 size s) → ltb (direct_end size) size ≡ false
    → StoresData memory ino size s
unfolding blocks_for
store_data-done memory ino size s slots word r done = record {
  direct = r.ids;
  indirect = ino.indirect;
  store = r.store;
  runs = store_data_step memory ino size s (rw slots at r.runs) (λ more. cc) (λ _. (refl, refl));
  grows = rw done (subst (λ k. Grows k s r.store) (omega arith) (rw slots at r.grows));
  holds = record { slots = r.count ∙ slots; direct = rw slots at r.holds; indirect = λ more. cc };
  words = r.words;
  word = word;
}

-- A string of at most MAXFILE blocks is stored whole, if that many data blocks are free.
pub store_data-StoresData :
    (memory : Bytes) (ino : Inode) (size : ℕ) (s : Store)
    → IsValid s
    → IsWorld s.world
    → size ≤ max_size
    → length ino.direct ≡ ndirect
    → All IsWord ino.direct
    → IsWord ino.indirect
    → blocks_for size ≤ free_count s
    → StoresData memory ino size s
unfolding blocks_for
store_data-StoresData memory ino size s v world fits slots words word room =
    let r = store_blocks-Stores memory ino.direct 0 size s v (rw slots (ground arith)) words in
    let count : free_count r.store + rounds ndirect 0 size ≡ free_count s =
      rw slots at r.grows.count in
    elim (Bool-cases (ltb (direct_end size) size)) [
      | inr done ↦ store_data-done memory ino size s slots word r done
      | inl more ↦ store_data-more memory ino size s v slots r more (
          store_indirect-StoresIndirect memory size r.store r.grows.valid (rw r.grows.world world)
            fits more (ground arith))
    ]
