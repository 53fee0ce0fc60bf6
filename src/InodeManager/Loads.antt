-- ===== src/InodeManager/Loads.antt =====
-- The loops of `read_file` load what the loops of `write_file` have stored.
use Prim.Native.Nat.add
use se.Base.{
  ℕ, suc, ◌+◌, ◌-◌, ◌*◌, ◌≤◌, ◌<◌, ◌≡◌, refl, ap, ◌∙◌, Bytes, List, [], ◌∷◌, ◌++◌, true, inl, inr,
  arith, some, ltb, Bool-cases, length, take, drop, replicate, get_or, length-append, length-take,
  length-drop, length-replicate, get_or-append, get_or-take, get_or-drop, get_or-replicate,
  get_or_end, get_or_ext,
}
use se.Disk.{Store, block_size, read_block}
use se.BlockManager.Alloc.{read_bitmap}
use se.InodeManager.{load_blocks, copy_block}
use se.InodeManager.Loops.{rounds, rounds_more, rounds_done, ends, Holds}

-- The bytes are those of the memory from `pos` up to `end`.
pub record Spells (memory bytes : Bytes) (pos end : ℕ) : Type 0 where
  pub size : pos + length bytes ≡ end
  pub same : (i : ℕ) → i < length bytes → get_or bytes i 0 ≡ get_or memory (pos + i) 0

pub Spells-nil : (memory : Bytes) (pos : ℕ) → Spells memory [] pos pos
Spells-nil memory pos = record { size = omega arith; same = λ i h. absurd (omega arith) }

pub Spells-append :
    (memory xs ys : Bytes) (pos mid end : ℕ)
    → Spells memory xs pos mid
    → Spells memory ys mid end
    → Spells memory (xs ++ ys) pos end
Spells-append memory xs ys pos mid end a b = record {
  size = omega (arith, a.size, b.size, length-append xs ys);
  same = λ i h.
      let position : i - length xs + (pos + length xs) ≡ i - length xs + mid =
        omega (arith, a.size) in
      ground (
        arith,
        get_or-append xs ys i 0,
        a.same i,
        b.same (i - length xs),
        length-append xs ys,
        a.size,
      );
}

pub length-copy_block : (memory : Bytes) (pos : ℕ) → length (copy_block memory pos) ≡ block_size
length-copy_block memory pos = omega (
  arith,
  length-take block_size (drop pos memory ++ replicate block_size 0),
  length-append (drop pos memory) (replicate block_size 0),
  length-replicate {A = ℕ} block_size 0,
)

get_or-copy_block :
    (memory : Bytes) (pos i : ℕ)
    → i < block_size
    → get_or (copy_block memory pos) i 0 ≡ get_or memory (pos + i) 0
get_or-copy_block memory pos i h = ground (
  arith,
  get_or-take block_size (drop pos memory ++ replicate block_size 0) i 0,
  get_or-append (drop pos memory) (replicate block_size 0) i 0,
  get_or-drop pos memory i 0,
  get_or-replicate {A = ℕ} block_size 0 (i - length (drop pos memory)),
  get_or_end memory (pos + i) 0,
  length-drop pos memory,
)

Spells-copy_block :
    (memory : Bytes) (pos : ℕ) → Spells memory (copy_block memory pos) pos (pos + block_size)
Spells-copy_block memory pos = record {
  size = omega (arith, length-copy_block memory pos);
  same = λ i h. get_or-copy_block memory pos i (omega (arith, length-copy_block memory pos));
}

-- What `load_blocks` gives in t.
pub record Loads (t : Store) (memory : Bytes) (ids : List ℕ) (pos size : ℕ) : Type 0 where
  pub bytes : Bytes
  pub runs : load_blocks ids pos size t ≡ some ((bytes, ends (length ids) pos size), t)
  pub spells : Spells memory bytes pos (ends (length ids) pos size)

load_step :
    (id : ℕ) (ids : List ℕ) (pos size : ℕ) (t : Store) {buf rest : Bytes} {end : ℕ}
    → ltb pos size ≡ true
    → read_block id t ≡ some (buf, t)
    → load_blocks ids (pos + block_size) size t ≡ some ((rest, end), t)
    → load_blocks (id ∷ ids) pos size t ≡ some ((buf ++ rest, end), t)
unfolding load_blocks
load_step id ids pos size t lt a b = ground arith

Loads-none :
    (t : Store) (memory : Bytes) (ids : List ℕ) (pos size : ℕ)
    → rounds (length ids) pos size ≡ 0
    → load_blocks ids pos size t ≡ some (([], pos), t)
    → Loads t memory ids pos size
Loads-none t memory ids pos size none runs =
    let here : pos ≡ pos + block_size * 0 = omega arith in
    record {
      bytes = [];
      runs = rw none (runs ∙ ap (λ (p : ℕ). some (([], p), t)) here);
      spells = rw none (rw (← here) (Spells-nil memory pos));
    }

Loads-round :
    (t : Store) (memory : Bytes) (id : ℕ) (ids : List ℕ) (pos size : ℕ)
    → ltb pos size ≡ true
    → read_block id t ≡ some (copy_block memory pos, t)
    → Loads t memory ids (pos + block_size) size
    → Loads t memory (id ∷ ids) pos size
Loads-round t memory id ids pos size lt a r =
    let end : ends (length ids) (pos + block_size) size ≡ ends (suc (length ids)) pos size =
      omega (arith, rounds_more (length ids) pos size lt) in
    record {
      bytes = copy_block memory pos ++ r.bytes;
      runs =
          load_step id ids pos size t lt a r.runs
          ∙ ap (λ (p : ℕ). some ((copy_block memory pos ++ r.bytes, p), t)) end;
      spells = rw (← end) (
          Spells-append memory (copy_block memory pos) r.bytes pos (pos + block_size) _
            (Spells-copy_block memory pos) r.spells);
    }

-- Blocks that hold the memory are loaded as this memory.
pub load_blocks-Loads :
    (s t : Store) (memory : Bytes) (ids : List ℕ) (pos size : ℕ)
    → Holds s t memory (rounds (length ids) pos size) ids pos
    → Loads t memory ids pos size
load_blocks-Loads s t memory [] pos size h =
    Loads-none t memory [] pos size (unfold rounds in refl) (unfold load_blocks in refl)
load_blocks-Loads s t memory (id ∷ ids) pos size h = elim (Bool-cases (ltb pos size)) [
  | inr stop ↦
      Loads-none t memory (id ∷ ids) pos size (rounds_done (length ids) pos size stop)
        (unfold load_blocks in rw stop)
  | inl lt ↦
      let (first, rest) = rw (rounds_more (length ids) pos size lt) at h in
      Loads-round t memory id ids pos size lt
        (read_bitmap t id first.inside.1 ∙ ap (λ b. some (b, t)) first.content)
        (load_blocks-Loads s t memory ids (pos + block_size) size rest)
]

-- Memory that begins with a string, cut at the length of the string, is this string.
pub Spells-take :
    (buf beyond bytes : Bytes) (end : ℕ)
    → Spells (buf ++ beyond) bytes 0 end
    → length buf ≤ end
    → take (length buf) bytes ≡ buf
Spells-take buf beyond bytes end s h =
    get_or_ext (take (length buf) bytes) buf 0
      (omega (arith, length-take (length buf) bytes, s.size))
      (λ i. ground (
        arith,
        get_or-take (length buf) bytes i 0,
        s.same i,
        s.size,
        get_or-append buf beyond i 0,
        get_or_end buf i 0,
        add.zero i,
      ))
