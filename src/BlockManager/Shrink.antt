-- ===== src/BlockManager/Shrink.antt =====
-- What freeing blocks leaves alone.
use se.Base.{
  ℕ, ◌≤◌, ◌≡◌, refl, subst, ◌∙◌, List, [], ◌∷◌, ◌++◌, true, false, arith, some, has, has-append,
  if◌then◌else◌,
}
use se.Disk.{Store}
use se.BlockManager.{free_block}
use se.BlockManager.Bitmap.{IsValid, marked, unmark, marked-unmark}
use se.BlockManager.Free.{unmark-IsValid, free_block-unmark}
use se.BlockManager.Count.{IsData, free_count, free_count-le}

-- From s to t, data blocks were freed that are not in P. No block but those of the bitmap changed.
pub record Shrinks (P : ℕ → Type 0) (s t : Store) : Type 0 where
  pub sb : t.sb ≡ s.sb
  pub last_inum : t.last_inum ≡ s.last_inum
  pub world : t.world ≡ s.world
  pub tick : t.tick ≡ s.tick
  pub valid : IsValid t
  pub clears : (j : ℕ) → IsData j → marked t j ≡ true → marked s j ≡ true
  pub spared : (j : ℕ) → IsData j → P j → marked s j ≡ true → marked t j ≡ true
  pub kept : (j : ℕ) → 10 ≤ j → t.blocks j ≡ s.blocks j

-- From s to t, these data blocks were set free, and no others.
abbrev pub Frees : List ℕ → Store → Store → Type 0
Frees ids s t = (j : ℕ) → IsData j → marked t j ≡ (if has ids j then false else marked s j)

pub Frees-append :
    (xs ys : List ℕ) (s t u : Store) → Frees xs s t → Frees ys t u → Frees (xs ++ ys) s u
Frees-append xs ys s t u f g j d = ground (arith, has-append xs ys j, f j d, g j d)

module _ (P : ℕ → Type 0) where
  pub Shrinks-refl : (s : Store) → IsValid s → Shrinks P s s
  Shrinks-refl s v = record {
    sb = refl;
    last_inum = refl;
    world = refl;
    tick = refl;
    valid = v;
    clears = λ j d m. m;
    spared = λ j d p m. m;
    kept = λ j h. refl;
  }

  pub Shrinks-trans : {s t u : Store} → Shrinks P s t → Shrinks P t u → Shrinks P s u
  Shrinks-trans a b = record {
    sb = b.sb ∙ a.sb;
    last_inum = b.last_inum ∙ a.last_inum;
    world = b.world ∙ a.world;
    tick = b.tick ∙ a.tick;
    valid = b.valid;
    clears = λ j d m. a.clears j d (b.clears j d m);
    spared = λ j d p m. b.spared j d p (a.spared j d p m);
    kept = λ j h. b.kept j h ∙ a.kept j h;
  }

  -- Freeing never costs room.
  pub Shrinks-count : {s t : Store} → Shrinks P s t → free_count s ≤ free_count t
  Shrinks-count {s} {t} a = free_count-le s t a.clears

  -- A block that may be freed.
  abbrev pub IsLoose : ℕ → Type 0
  IsLoose id = IsData id × ¬ P id

  pub free_block-Shrinks :
      (s : Store) (id : ℕ)
      → IsValid s
      → IsLoose id
      → (t : Store) × (free_block id s ≡ some (tt, t)) × Shrinks P s t × Frees (id ∷ []) s t
  free_block-Shrinks s id v (d, loose) = (
    unmark s id,
    free_block-unmark s id (omega arith),
    record {
      sb = unfold unmark in refl;
      last_inum = unfold unmark in refl;
      world = unfold unmark in refl;
      tick = unfold unmark in refl;
      valid = unmark-IsValid s id v;
      clears = λ j e m. ground (arith, marked-unmark s id j v (omega arith));
      spared = λ j e p m.
          let other : ¬ (j ≡ id) = λ same. loose (subst P same p) in
          ground (arith, marked-unmark s id j v (omega arith));
      kept = λ j h. unfold unmark in ground arith;
    },
    λ j e. unfold has in ground (arith, marked-unmark s id j v (omega arith)),
  )
