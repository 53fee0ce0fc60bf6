-- ===== src/InodeManager/Data.antt =====
-- The data of a whole file, direct and indirect blocks together.
use se.Base.{
  ℕ, zero, suc, drop, ◌+◌, ◌*◌, ◌^◌, ◌≤◌, ◌<◌, ◌≡◌, ◌⊎◌, refl, ap, Bytes, List, [], ◌∷◌, ◌++◌, Bool,
  if◌then◌else◌, has, append-nil, true, false, inl, inr, arith, some, ltb, Bool-cases, length, take,
  All, >>=-some, ltb→lt,
}
use se.Disk.{Store, block_size, block_num, read_block}
use se.BlockManager.{free_block}
use se.BlockManager.Alloc.{read_bitmap}
use se.BlockManager.Bitmap.{IsValid}
use se.BlockManager.Shrink.{
  Shrinks, Shrinks-trans, IsLoose, free_block-Shrinks, Frees, Frees-append,
}
use se.Inode.{Inode, ndirect, to_words}
use se.InodeManager.{loop_size, nindirect, free_blocks, read_words, free_indirect, free_data}
use se.InodeManager.Loops.{rounds, rounds_cases, ends}
use se.InodeManager.Frees.{free_blocks-Shrinks}

-- MAXFILE blocks of bytes.
abbrev pub max_size : ℕ
max_size = (ndirect + nindirect) * block_size

-- The bound of a loop is the size where the int is not negative.
pub loop_size_lem : (size : ℕ) → size < 2 ^ 31 → loop_size size ≡ size
unfolding loop_size
loop_size_lem size h = ground arith

-- Where the direct blocks end.
abbrev pub direct_end : ℕ → ℕ
direct_end size = ends ndirect 0 size

pub indirect_end :
    (size : ℕ)
    → size ≤ max_size
    → ltb (direct_end size) size ≡ true
    → size ≤ ends nindirect (direct_end size) size
indirect_end size h lt =
    ends_cases (rounds_cases ndirect 0 size) (rounds_cases nindirect (direct_end size) size)
  where
    ends_cases :
        (size ≤ direct_end size) ⊎ (rounds ndirect 0 size ≡ ndirect)
        → (size ≤ ends nindirect (direct_end size) size)
          ⊎ (rounds nindirect (direct_end size) size ≡ nindirect)
        → size ≤ ends nindirect (direct_end size) size
    ends_cases (inl e) r = absurd (omega (arith, ltb→lt _ _ lt))
    ends_cases (inr e) (inl r) = r
    ends_cases (inr e) (inr r) = omega arith

-- Whether the file needs the indirect block.
abbrev pub is_large : Inode → Bool
is_large ino = ltb (direct_end ino.size) ino.size

abbrev pub listed : (ℕ → Bytes) → Inode → List ℕ
listed blocks ino = to_words nindirect (blocks ino.indirect)

-- The blocks in use by a file.
unfoldable pub file_blocks : (ℕ → Bytes) → Inode → List ℕ
file_blocks blocks ino =
    take (rounds ndirect 0 ino.size) ino.direct
    ++ (if is_large ino
        then ino.indirect
          ∷ take (rounds nindirect (direct_end ino.size) ino.size) (listed blocks ino)
        else [])

-- The blocks of a file as its inode gives them are data blocks, none of them in P.
pub record IsOwned (P : ℕ → Type 0) (s : Store) (ino : Inode) : Type 0 where
  pub fits : ino.size ≤ max_size
  pub slots : length ino.direct ≡ ndirect
  pub direct : All (IsLoose P) (take (rounds ndirect 0 ino.size) ino.direct)
  pub indirect : ltb (direct_end ino.size) ino.size ≡ true → IsLoose P ino.indirect
  pub words :
      ltb (direct_end ino.size) ino.size ≡ true
      → All (IsLoose P) (
          take
            (rounds nindirect (direct_end ino.size) ino.size)
            (to_words nindirect (s.blocks ino.indirect)))

pub read_words_lem :
    (s : Store) (id : ℕ)
    → id < block_num
    → read_words id s ≡ some (to_words nindirect (s.blocks id), s)
unfolding read_words
read_words_lem s id h = >>=-some (read_block id) _ (read_bitmap s id h)

pub length-to_words : (n : ℕ) (buf : Bytes) → length (to_words n buf) ≡ n
unfolding to_words
length-to_words zero buf = refl
length-to_words (suc n) buf = ap suc (length-to_words n (drop 4 buf))

free_indirect_step :
    (id pos size : ℕ) (s : Store) {t u : Store} {words : List ℕ} {end : ℕ}
    → read_words id s ≡ some (words, s)
    → free_blocks words pos size s ≡ some (end, t)
    → size ≤ end
    → free_block id t ≡ some (tt, u)
    → free_indirect id pos size s ≡ some (tt, u)
unfolding free_indirect
free_indirect_step id pos size s a b h c = ground arith

free_data_step :
    (ino : Inode) (s : Store) {t u : Store} {end : ℕ}
    → free_blocks ino.direct 0 ino.size s ≡ some (end, t)
    → (ltb end ino.size ≡ true → free_indirect ino.indirect end ino.size t ≡ some (tt, u))
    → (ltb end ino.size ≡ false → u ≡ t)
    → free_data ino s ≡ some (tt, u)
unfolding free_data
free_data_step ino s {t} {u} {end} a b c = elim (Bool-cases (ltb end ino.size)) [
  | inl more ↦ ground (arith, b more)
  | inr done ↦ ground (arith, c done)
]

module _ (P : ℕ → Type 0) where
  free_indirect-Shrinks :
      (id size : ℕ) (s : Store)
      → IsValid s
      → size ≤ max_size
      → ltb (direct_end size) size ≡ true
      → IsLoose P id
      → All
          (IsLoose P)
          (take (rounds nindirect (direct_end size) size) (to_words nindirect (s.blocks id)))
      → (t : Store) × (free_indirect id (direct_end size) size s ≡ some (tt, t))
        × Shrinks P s t
        × Frees
            (id ∷ take (rounds nindirect (direct_end size) size) (to_words nindirect (s.blocks id)))
            s
            t
  free_indirect-Shrinks id size s v fits lt loose all =
      let words : List ℕ = to_words nindirect (s.blocks id) in
      let count : length words ≡ nindirect = length-to_words nindirect (s.blocks id) in
      let (t, e, a, x) = free_blocks-Shrinks P words (direct_end size) size s v (rw count all) in
      let (u, f, b, y) = free_block-Shrinks P t id a.valid loose in
      let x' : Frees (take (rounds nindirect (direct_end size) size) words) s t = rw count at x in
      (
        u,
        free_indirect_step id (direct_end size) size s (read_words_lem s id loose.0.1) e
            (rw count (indirect_end size fits lt)) f,
        Shrinks-trans P a b,
        λ j d. unfold has in ground (arith, x' j d, y j d),
      )

  -- The blocks of an owned file are freed, all of them and no others, with no fault.
  pub free_data-Shrinks :
      (ino : Inode) (s : Store)
      → IsValid s
      → IsOwned P s ino
      → (t : Store) × (free_data ino s ≡ some (tt, t))
        × Shrinks P s t
        × Frees (file_blocks s.blocks ino) s t
  free_data-Shrinks ino s v o =
      let (t, e, a, x) = free_blocks-Shrinks P ino.direct 0 ino.size s v (rw o.slots o.direct) in
      let e' : free_blocks ino.direct 0 ino.size s ≡ some (direct_end ino.size, t) =
        rw o.slots at e in
      let x' : Frees (take (rounds ndirect 0 ino.size) ino.direct) s t = rw o.slots at x in
      elim (Bool-cases (ltb (direct_end ino.size) ino.size)) [
        | inr done ↦ (
          t,
          free_data_step ino s e' (λ more. cc) (λ _. refl),
          a,
          unfold file_blocks in
              rw (done, append-nil (take (rounds ndirect 0 ino.size) ino.direct)) x',
        )
        | inl more ↦
            let same = a.kept ino.indirect (omega (arith, (o.indirect more).0.0)) in
            let (u, f, b, y) =
              free_indirect-Shrinks ino.indirect ino.size t a.valid o.fits more (o.indirect more)
                (rw same (o.words more)) in
            (
              u,
              free_data_step ino s e' (λ _. f) (λ done. cc),
              Shrinks-trans P a b,
              unfold file_blocks in
                  rw more (
                    Frees-append (take (rounds ndirect 0 ino.size) ino.direct) _ s t u x'
                      (rw same at y)),
            )
      ]
