-- ===== src/InodeManager/Stored.antt =====
-- What `store_data` stores, `load_data` loads.
use se.Base.{
  ℕ, ◌≤◌, ◌≡◌, refl, ap, ◌∙◌, Bytes, List, [], ◌++◌, true, false, inl, inr, arith, some, ltb,
  Bool-cases, length, All, append-nil, sym, ltb→le,
}
use se.Disk.{Store}
use se.BlockManager.Growth.{Grows}
use se.Inode.{Inode, ndirect, to_words, from_words}
use se.Inode.Layout.{to_words-from_words}
use se.InodeManager.{nindirect, load_blocks, read_words, load_indirect, load_data}
use se.InodeManager.Loops.{IsWord, rounds, ends, Holds, Holds-later, Taken, Taken-later}
use se.InodeManager.Loads.{Spells, Spells-append, load_blocks-Loads}
use se.InodeManager.Data.{max_size, direct_end, indirect_end, read_words_lem}

-- From s on the indirect block `id` and the blocks that it lists were taken; in t they hold the
-- memory behind the direct blocks.
pub record HoldsIndirect (s t : Store) (memory : Bytes) (id size : ℕ) : Type 0 where
  pub words : List ℕ
  pub count : length words ≡ nindirect
  pub small : All IsWord words
  pub block : Taken s t id (from_words words)
  pub data_blocks :
      Holds s t memory (rounds nindirect (direct_end size) size) words (direct_end size)

-- The blocks of the inode were taken since s, and hold the memory in t.
pub record HoldsFile (s t : Store) (memory : Bytes) (ino : Inode) (size : ℕ) : Type 0 where
  pub slots : length ino.direct ≡ ndirect
  pub direct : Holds s t memory (rounds ndirect 0 size) ino.direct 0
  pub indirect : ltb (direct_end size) size ≡ true → HoldsIndirect s t memory ino.indirect size

pub HoldsIndirect-later :
    {k m : ℕ} {r s t u : Store} {memory : Bytes} {id size : ℕ}
    → Grows k r s
    → Grows m t u
    → HoldsIndirect s t memory id size
    → HoldsIndirect r u memory id size
HoldsIndirect-later g h o = record {
  words = o.words;
  count = o.count;
  small = o.small;
  block = Taken-later g h o.block;
  data_blocks = Holds-later _ _ o.words _ g h o.data_blocks;
}

pub HoldsFile-later :
    {k m : ℕ} {r s t u : Store} {memory : Bytes} {ino : Inode} {size : ℕ}
    → Grows k r s
    → Grows m t u
    → HoldsFile s t memory ino size
    → HoldsFile r u memory ino size
HoldsFile-later {ino = ino} g h o = record {
  slots = o.slots;
  direct = Holds-later _ _ ino.direct _ g h o.direct;
  indirect = λ more. HoldsIndirect-later g h (o.indirect more);
}

pub load_indirect_step :
    (id pos size : ℕ) (t : Store) {words : List ℕ} {bytes : Bytes} {end : ℕ}
    → read_words id t ≡ some (words, t)
    → load_blocks words pos size t ≡ some ((bytes, end), t)
    → size ≤ end
    → load_indirect id pos size t ≡ some (bytes, t)
unfolding load_indirect
load_indirect_step id pos size t a b h = ground arith

load_indirect-Spells :
    (s t : Store) (memory : Bytes) (id size : ℕ)
    → size ≤ max_size
    → ltb (direct_end size) size ≡ true
    → HoldsIndirect s t memory id size
    → (bytes : Bytes) × (load_indirect id (direct_end size) size t ≡ some (bytes, t))
      × Spells memory bytes (direct_end size) (ends nindirect (direct_end size) size)
load_indirect-Spells s t memory id size fits lt o =
    let r =
      load_blocks-Loads s t memory o.words (direct_end size) size (rw o.count o.data_blocks) in
    let same : to_words nindirect (t.blocks id) ≡ o.words =
      ap (to_words nindirect) (o.block.content ∙ sym (append-nil _))
      ∙ to_words-from_words nindirect o.words [] o.count o.small in
    (
      r.bytes,
      load_indirect_step id (direct_end size) size t
          (read_words_lem t id o.block.inside.1 ∙ ap (λ w. some (w, t)) same) r.runs
          (rw o.count (indirect_end size fits lt)),
      rw o.count at r.spells,
    )

pub load_data_step :
    (ino : Inode) (t : Store) {direct rest bytes : Bytes} {end : ℕ}
    → load_blocks ino.direct 0 ino.size t ≡ some ((direct, end), t)
    → (ltb end ino.size ≡ true → load_indirect ino.indirect end ino.size t ≡ some (rest, t))
    → (ltb end ino.size ≡ true → bytes ≡ direct ++ rest)
    → (ltb end ino.size ≡ false → bytes ≡ direct)
    → load_data ino t ≡ some (bytes, t)
unfolding load_data
load_data_step ino t {direct} {rest} {bytes} {end} a b c d = elim (Bool-cases (ltb end ino.size)) [
  | inl more ↦ ground (arith, b more, c more)
  | inr done ↦ ground (arith, d done)
]

-- The blocks that hold the memory are read back as the memory, as far as the size and beyond.
pub load_data-Spells :
    (s t : Store) (memory : Bytes) (ino : Inode)
    → ino.size ≤ max_size
    → HoldsFile s t memory ino ino.size
    → (bytes : Bytes) × (end : ℕ) × (load_data ino t ≡ some (bytes, t))
      × Spells memory bytes 0 end
      × (ino.size ≤ end)
load_data-Spells s t memory ino fits o =
    let r = load_blocks-Loads s t memory ino.direct 0 ino.size (rw o.slots o.direct) in
    let runs : load_blocks ino.direct 0 ino.size t ≡ some ((r.bytes, direct_end ino.size), t) =
      rw o.slots at r.runs in
    let spells : Spells memory r.bytes 0 (direct_end ino.size) = rw o.slots at r.spells in
    elim (Bool-cases (ltb (direct_end ino.size) ino.size)) [
      | inr done ↦ (
        r.bytes,
        direct_end ino.size,
        load_data_step ino t {rest = []} runs (λ more. cc) (λ more. cc) (λ _. refl),
        spells,
        ltb→le _ _ done,
      )
      | inl more ↦
          let (rest, e, tail) =
            load_indirect-Spells s t memory ino.indirect ino.size fits more (o.indirect more) in
          (
            r.bytes ++ rest,
            ends nindirect (direct_end ino.size) ino.size,
            load_data_step ino t runs (λ _. e) (λ _. refl) (λ done. cc),
            Spells-append memory r.bytes rest 0 (direct_end ino.size) _ spells tail,
            indirect_end ino.size fits more,
          )
    ]
