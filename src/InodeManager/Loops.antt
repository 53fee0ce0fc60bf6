-- ===== src/InodeManager/Loops.antt =====
-- The loops of inode_manager.cc that allocate, read and free the blocks of a file: they end, they
-- do not fault where there is room, and what one stores another loads.
use se.Base.{
  ℕ, zero, suc, ◌+◌, ◌*◌, ◌^◌, ◌≤◌, ◌<◌, ◌≡◌, ◌⊎◌, refl, ap, ◌∙◌, Bytes, List, [], ◌∷◌, true, false,
  inl, inr, arith, some, ltb, Bool-cases, if◌then◌else◌, length, All, subst,
}
use se.Disk.{Store, block_size, write_block}
use se.BlockManager.{alloc_block}
use se.BlockManager.Bitmap.{IsValid, marked}
use se.BlockManager.Count.{IsData, free_count}
use se.BlockManager.Growth.{
  Grows, Grows-refl, Grows-trans, put_block, write_block-put_block, marked-put_block,
  blocks-put_block, Grows-put_block, alloc_block-Grows,
}
use se.InodeManager.{store_blocks, copy_block}

-- The rounds that a loop makes over n blocks, from `pos` on.
unfoldable pub rounds : ℕ → ℕ → ℕ → ℕ
rounds zero pos size = 0
rounds (suc n) pos size = if ltb pos size then suc (rounds n (pos + block_size) size) else 0

-- Where it ends.
abbrev pub ends : ℕ → ℕ → ℕ → ℕ
ends n pos size = pos + block_size * rounds n pos size

pub rounds_more :
    (n pos size : ℕ)
    → ltb pos size ≡ true
    → rounds (suc n) pos size ≡ suc (rounds n (pos + block_size) size)
unfolding rounds
rounds_more n pos size e = rw e

pub rounds_done : (n pos size : ℕ) → ltb pos size ≡ false → rounds (suc n) pos size ≡ 0
unfolding rounds
rounds_done n pos size e = rw e

-- A loop ends behind `size`, or when its blocks do.
pub rounds_cases : (n pos size : ℕ) → (size ≤ ends n pos size) ⊎ (rounds n pos size ≡ n)
unfolding rounds
rounds_cases zero pos size = inr refl
rounds_cases (suc n) pos size = ground (arith, rounds_cases n (pos + block_size) size)

pub rounds-le : (n pos size : ℕ) → rounds n pos size ≤ n
unfolding rounds
rounds-le zero pos size = omega arith
rounds-le (suc n) pos size = ground (arith, rounds-le n (pos + block_size) size)

-- A block that was taken since s, is still in use in t and holds `buf`.
pub record Taken (s t : Store) (id : ℕ) (buf : Bytes) : Type 0 where
  pub inside : IsData id
  pub fresh : marked s id ≡ false
  pub used : marked t id ≡ true
  pub content : t.blocks id ≡ buf

-- The first n blocks hold the memory from `pos` on.
abbrev pub Holds : Store → Store → Bytes → ℕ → List ℕ → ℕ → Type 0
Holds s t memory zero ids pos = Unit
Holds s t memory (suc n) [] pos = ⊥
Holds s t memory (suc n) (id ∷ ids) pos =
    Taken s t id (copy_block memory pos) × Holds s t memory n ids (pos + block_size)

pub Taken-later :
    {n m : ℕ} {r s t u : Store} {id : ℕ} {buf : Bytes}
    → Grows n r s
    → Grows m t u
    → Taken s t id buf
    → Taken r u id buf
Taken-later {r = r} {id = id} g h k = record {
  inside = k.inside;
  fresh = fresh_before (Bool-cases (marked r id));
  used = h.marks id k.inside k.used;
  content = h.kept id k.inside k.used ∙ k.content;
}
  where
    fresh_before : (marked r id ≡ true) ⊎ (marked r id ≡ false) → marked r id ≡ false
    fresh_before (inl e) = ground (arith, g.marks id k.inside e, k.fresh)
    fresh_before (inr e) = e

-- Blocks that were taken stay as they are while others are taken.
pub Holds-later :
    {k m : ℕ} {r s t u : Store} (memory : Bytes) (n : ℕ) (ids : List ℕ) (pos : ℕ)
    → Grows k r s
    → Grows m t u
    → Holds s t memory n ids pos
    → Holds r u memory n ids pos
Holds-later memory zero ids pos g h hold = tt
Holds-later memory (suc n) [] pos g h hold = hold
Holds-later memory (suc n) (id ∷ ids) pos g h hold =
    (Taken-later g h hold.0, Holds-later memory n ids (pos + block_size) g h hold.1)

abbrev pub IsWord : ℕ → Type 0
IsWord w = w < 2 ^ 32

-- What `store_blocks` has done from s.
pub record Stores (memory : Bytes) (slots : List ℕ) (pos size : ℕ) (s : Store) : Type 0 where
  pub ids : List ℕ
  pub store : Store
  pub runs :
      store_blocks memory slots pos size s ≡ some ((ids, ends (length slots) pos size), store)
  pub grows : Grows (rounds (length slots) pos size) s store
  pub holds : Holds s store memory (rounds (length slots) pos size) ids pos
  pub count : length ids ≡ length slots
  pub words : All IsWord ids

store_step :
    (memory : Bytes) (slot : ℕ) (slots : List ℕ) (pos size : ℕ) (s : Store) {t u w : Store}
    {id end : ℕ} {ids : List ℕ}
    → ltb pos size ≡ true
    → alloc_block s ≡ some (id, t)
    → write_block id (copy_block memory pos) t ≡ some (tt, u)
    → store_blocks memory slots (pos + block_size) size u ≡ some ((ids, end), w)
    → store_blocks memory (slot ∷ slots) pos size s ≡ some ((id ∷ ids, end), w)
unfolding store_blocks
store_step memory slot slots pos size s lt a b c = ground arith

Stores-none :
    (memory : Bytes) (slots : List ℕ) (pos size : ℕ) (s : Store)
    → rounds (length slots) pos size ≡ 0
    → store_blocks memory slots pos size s ≡ some ((slots, pos), s)
    → IsValid s
    → All IsWord slots
    → Stores memory slots pos size s
Stores-none memory slots pos size s none runs v w = record {
  ids = slots;
  store = s;
  runs = rw none (runs ∙ ap (λ (p : ℕ). some ((slots, p), s)) (omega arith));
  grows = rw none (Grows-refl s v);
  holds = rw none tt;
  count = refl;
  words = w;
}

Stores-round :
    (memory : Bytes) (slot : ℕ) (slots : List ℕ) (pos size : ℕ) (s t : Store) (id : ℕ)
    → IsValid s
    → ltb pos size ≡ true
    → alloc_block s ≡ some (id, t)
    → IsData id
    → marked s id ≡ false
    → marked t id ≡ true
    → Grows 1 s t
    → Stores memory slots (pos + block_size) size (put_block t id (copy_block memory pos))
    → Stores memory (slot ∷ slots) pos size s
Stores-round memory slot slots pos size s t id v lt a d free set g r =
    let u : Store = put_block t id (copy_block memory pos) in
    let n : ℕ = rounds (length slots) (pos + block_size) size in
    let grown : Grows 1 s u = Grows-put_block id (copy_block memory pos) g d free in
    let more : rounds (suc (length slots)) pos size ≡ suc n =
      rounds_more (length slots) pos size lt in
    record {
      ids = id ∷ r.ids;
      store = r.store;
      runs =
          store_step memory slot slots pos size s lt a
            (write_block-put_block t id (copy_block memory pos) d.1) r.runs
          ∙ ap (λ (p : ℕ). some ((id ∷ r.ids, p), r.store)) (omega (arith, more));
      grows = subst (λ k. Grows k s r.store) (omega (arith, more)) (Grows-trans grown r.grows);
      holds = rw more (
        Taken-later (Grows-refl s v) r.grows (record {
          inside = d;
          fresh = free;
          used = marked-put_block t id (copy_block memory pos) id (omega arith) d ∙ set;
          content = ground (arith, blocks-put_block t id (copy_block memory pos) id);
        }),
        Holds-later memory n r.ids (pos + block_size) grown (Grows-refl r.store r.grows.valid)
            r.holds,
      );
      count = ap suc r.count;
      words = (omega arith, r.words);
    }

-- Where enough data blocks are free, the loop ends with every block stored.
pub store_blocks-Stores :
    (memory : Bytes) (slots : List ℕ) (pos size : ℕ) (s : Store)
    → IsValid s
    → rounds (length slots) pos size ≤ free_count s
    → All IsWord slots
    → Stores memory slots pos size s
store_blocks-Stores memory [] pos size s v h w =
    Stores-none memory [] pos size s (unfold rounds in refl) (unfold store_blocks in refl) v tt
store_blocks-Stores memory (slot ∷ slots) pos size s v h w = elim (Bool-cases (ltb pos size)) [
  | inr stop ↦
      Stores-none memory (slot ∷ slots) pos size s (rounds_done (length slots) pos size stop)
        (unfold store_blocks in rw stop) v w
  | inl lt ↦
      let more = rounds_more (length slots) pos size lt in
      let (id, t, a, d, free, set, g) = alloc_block-Grows s v (omega (arith, more)) in
      let grown = Grows-put_block id (copy_block memory pos) g d free in
      Stores-round memory slot slots pos size s t id v lt a d free set g (
        store_blocks-Stores memory slots (pos + block_size) size _ grown.valid
          (omega (arith, more, grown.count)) w.1)
]
