-- ===== src/InodeManager/Frees.antt =====
-- The loops that free the blocks of a file.
use se.Base.{
  ℕ, ◌+◌, ◌≡◌, refl, ap, ◌∙◌, List, [], ◌∷◌, true, inl, inr, arith, some, ltb, Bool-cases, length,
  take, All, has,
}
use se.Disk.{Store, block_size}
use se.BlockManager.{free_block}
use se.BlockManager.Bitmap.{IsValid}
use se.BlockManager.Shrink.{
  Shrinks, Shrinks-refl, Shrinks-trans, IsLoose, free_block-Shrinks, Frees, Frees-append,
}
use se.InodeManager.{free_blocks}
use se.InodeManager.Loops.{rounds, rounds_more, rounds_done, ends}

free_step :
    (id : ℕ) (ids : List ℕ) (pos size : ℕ) (s : Store) {t u : Store} {end : ℕ}
    → ltb pos size ≡ true
    → free_block id s ≡ some (tt, t)
    → free_blocks ids (pos + block_size) size t ≡ some (end, u)
    → free_blocks (id ∷ ids) pos size s ≡ some (end, u)
unfolding free_blocks
free_step id ids pos size s lt a b = ground arith

module _ (P : ℕ → Type 0) where
  -- The blocks that the loop meets may be freed: it ends, and frees them.
  pub free_blocks-Shrinks :
      (ids : List ℕ) (pos size : ℕ) (s : Store)
      → IsValid s
      → All (IsLoose P) (take (rounds (length ids) pos size) ids)
      → (t : Store) × (free_blocks ids pos size s ≡ some (ends (length ids) pos size, t))
        × Shrinks P s t
        × Frees (take (rounds (length ids) pos size) ids) s t
  free_blocks-Shrinks [] pos size s v h = (
    s,
    (unfold free_blocks rounds in ap (λ (p : ℕ). some (p, s)) (omega arith)),
    Shrinks-refl P s v,
    λ j d. (unfold rounds has in refl),
  )
  free_blocks-Shrinks (id ∷ ids) pos size s v h = elim (Bool-cases (ltb pos size)) [
    | inr stop ↦ (
      s,
      rw (rounds_done (length ids) pos size stop)
          (unfold free_blocks in rw stop (ap (λ (p : ℕ). some (p, s)) (omega arith))),
      Shrinks-refl P s v,
      rw (rounds_done (length ids) pos size stop) (λ j d. unfold has in refl),
    )
    | inl lt ↦
        let more = rounds_more (length ids) pos size lt in
        let (loose, rest) = rw more at h in
        let (t, e, a, x) = free_block-Shrinks P s id v loose in
        let (u, f, b, y) = free_blocks-Shrinks ids (pos + block_size) size t a.valid rest in
        (
          u,
          free_step id ids pos size s lt e f ∙ ap (λ (p : ℕ). some (p, u)) (omega (arith, more)),
          Shrinks-trans P a b,
          rw more (
              Frees-append (id ∷ []) (take (rounds (length ids) (pos + block_size) size) ids) s t u
                x y),
        )
  ]
