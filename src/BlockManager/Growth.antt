-- ===== src/BlockManager/Growth.antt =====
-- What the allocation of blocks leaves alone, and what a freed block leaves alone.
use se.Base.{
  ℕ, ◌+◌, ◌*◌, ◌≤◌, ◌<◌, ◌≡◌, refl, ◌∙◌, Bytes, true, false, arith, some, ◌==◌, if◌then◌else◌,
}
use se.Disk.{Store, block_num, write_block, update}
use se.BlockManager.{bpb, alloc_block}
use se.BlockManager.Bitmap.{IsValid, marked, mark, marked-mark}
use se.BlockManager.Free.{mark-IsValid}
use se.BlockManager.Count.{IsData, free_count, free_count-mark, free_count-cong, alloc_block_free}

-- The inode table and all else between the bitmap and the data.
abbrev pub InTable : ℕ → Type 0
InTable j = (10 ≤ j) × (j < 2 * bpb)

-- From s to t, n data blocks were taken. No block in use and no inode was touched.
pub record Grows (n : ℕ) (s t : Store) : Type 0 where
  pub sb : t.sb ≡ s.sb
  pub last_inum : t.last_inum ≡ s.last_inum
  pub world : t.world ≡ s.world
  pub valid : IsValid t
  pub count : free_count t + n ≡ free_count s
  pub marks : (j : ℕ) → IsData j → marked s j ≡ true → marked t j ≡ true
  pub table : (j : ℕ) → InTable j → t.blocks j ≡ s.blocks j
  pub kept : (j : ℕ) → IsData j → marked s j ≡ true → t.blocks j ≡ s.blocks j

pub Grows-refl : (s : Store) → IsValid s → Grows 0 s s
Grows-refl s v = record {
  sb = refl;
  last_inum = refl;
  world = refl;
  valid = v;
  count = omega arith;
  marks = λ j d m. m;
  table = λ j h. refl;
  kept = λ j d m. refl;
}

pub Grows-trans : {n m : ℕ} {s t u : Store} → Grows n s t → Grows m t u → Grows (n + m) s u
Grows-trans {n} {m} {s} {t} {u} g h = record {
  sb = h.sb ∙ g.sb;
  last_inum = h.last_inum ∙ g.last_inum;
  world = h.world ∙ g.world;
  valid = h.valid;
  count = omega (arith, g.count, h.count);
  marks = λ j d e. h.marks j d (g.marks j d e);
  table = λ j k. h.table j k ∙ g.table j k;
  kept = λ j d e. h.kept j d (g.marks j d e) ∙ g.kept j d e;
}

-- The environment's answers are no part of the disk.
unfoldable pub ticked : Store → ℕ → Store
ticked t k = record t { tick = k }

pub marked-ticked : (t : Store) (k j : ℕ) → marked (ticked t k) j ≡ marked t j
unfolding marked ticked
marked-ticked t k j = refl

pub Grows-ticked : {n : ℕ} {s t : Store} (k : ℕ) → Grows n s t → Grows n s (ticked t k)
unfolding ticked
Grows-ticked {t = t} k g = record {
  sb = g.sb;
  last_inum = g.last_inum;
  world = g.world;
  valid = g.valid;
  count =
      omega
        (arith, g.count, free_count-cong t (record t { tick = k }) (λ j d. marked-ticked t k j));
  marks = λ j d e. marked-ticked t k j ∙ g.marks j d e;
  table = g.table;
  kept = g.kept;
}

-- The store after a write behind the bitmap.
unfoldable pub put_block : Store → ℕ → Bytes → Store
put_block t id buf = record t { blocks = update t.blocks id buf }

pub write_block-put_block :
    (t : Store) (id : ℕ) (buf : Bytes)
    → id < block_num
    → write_block id buf t ≡ some (tt, put_block t id buf)
unfolding write_block put_block
write_block-put_block t id buf h = ground arith

pub marked-put_block :
    (t : Store) (id : ℕ) (buf : Bytes) (j : ℕ)
    → 10 ≤ id
    → IsData j
    → marked (put_block t id buf) j ≡ marked t j
unfolding marked put_block
marked-put_block t id buf j h d = ground arith

pub put_block-IsValid :
    (t : Store) (id : ℕ) (buf : Bytes) → 10 ≤ id → IsValid t → IsValid (put_block t id buf)
unfolding put_block
put_block-IsValid t id buf h v j lo hi = grind (arith, v j lo hi)

pub blocks-put_block :
    (t : Store) (id : ℕ) (buf : Bytes) (j : ℕ)
    → (put_block t id buf).blocks j ≡ (if id == j then buf else t.blocks j)
unfolding put_block
blocks-put_block t id buf j = refl

pub put_block_self : (t : Store) (id : ℕ) (buf : Bytes) → (put_block t id buf).blocks id ≡ buf
unfolding put_block
put_block_self t id buf = ground arith

pub free_count-put_block :
    (t : Store) (id : ℕ) (buf : Bytes) → 10 ≤ id → free_count (put_block t id buf) ≡ free_count t
free_count-put_block t id buf h = free_count-cong t _ (λ j d. marked-put_block t id buf j h d)

-- A write to a block that was free at the start.
pub Grows-put_block :
    {n : ℕ} {s t : Store} (id : ℕ) (buf : Bytes)
    → Grows n s t
    → IsData id
    → marked s id ≡ false
    → Grows n s (put_block t id buf)
Grows-put_block {s = s} {t = t} id buf g d free = record {
  sb = unfold put_block in g.sb;
  last_inum = unfold put_block in g.last_inum;
  world = unfold put_block in g.world;
  valid = put_block-IsValid t id buf (omega arith) g.valid;
  count = omega (arith, g.count, free_count-put_block t id buf (omega arith));
  marks = λ j e m. marked-put_block t id buf j (omega arith) e ∙ g.marks j e m;
  table = λ j h. ground (arith, blocks-put_block t id buf j, g.table j h);
  kept = λ j e m. ground (arith, blocks-put_block t id buf j, g.kept j e m);
}

Grows-mark :
    (s : Store) (id : ℕ) → IsValid s → IsData id → marked s id ≡ false → Grows 1 s (mark s id)
Grows-mark s id v d free = record {
  sb = unfold mark in refl;
  last_inum = unfold mark in refl;
  world = unfold mark in refl;
  valid = mark-IsValid s id v;
  count = free_count-mark s id v d free;
  marks = λ j e m. ground (arith, marked-mark s id j v (omega arith));
  table = λ j h. unfold mark in ground arith;
  kept = λ j e m. unfold mark in ground arith;
}

-- While a data block is free, `alloc_block` takes one that was free.
pub alloc_block-Grows :
    (s : Store)
    → IsValid s
    → 0 < free_count s
    → (id : ℕ) × (t : Store) × (alloc_block s ≡ some (id, t))
      × IsData id
      × (marked s id ≡ false)
      × (marked t id ≡ true)
      × Grows 1 s t
alloc_block-Grows s v h =
    let (id, d, free, e) = alloc_block_free s h in
    (
      id,
      mark s id,
      e,
      d,
      free,
      ground (arith, marked-mark s id id v (omega arith)),
      Grows-mark s id v d free,
    )
