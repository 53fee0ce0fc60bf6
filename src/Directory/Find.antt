-- ===== src/Directory/Find.antt =====
-- The search in a list of entries, as `lookup` and `unlink` of yfs_client.cc do it.
use se.Base.{
  ℕ, ◌≡◌, ◌≢◌, refl, ◌∙◌, sym, Bytes, List, [], ◌∷◌, ◌++◌, true, false, arith, some, none, All,
  Bool-cases, inl, inr,
}
use se.Directory.{Dirent, same_name, find, erase}

pub same_name_refl : (name : Bytes) → same_name name name ≡ true
unfolding same_name
same_name_refl [] = refl
same_name_refl (c ∷ s) = ground (arith, same_name_refl s)

-- The test of two names holds for equal names alone.
pub same_name_eq : (a b : Bytes) → same_name a b ≡ true → a ≡ b
unfolding same_name
same_name_eq [] [] h = refl
same_name_eq [] (d ∷ t) h = ground arith
same_name_eq (c ∷ s) [] h = ground arith
same_name_eq (c ∷ s) (d ∷ t) h = elim (Bool-cases (same_name s t)) [
  | inl e ↦ ground (arith, same_name_eq s t e)
  | inr e ↦ ground arith
]

pub find-snoc :
    (name : Bytes) (es : List Dirent) (inum : ℕ)
    → find name es ≡ none
    → find name (es ++ record { name = name; inum = inum } ∷ []) ≡ some inum
unfolding find
find-snoc name [] inum h = ground (arith, same_name_refl name)
find-snoc name (e ∷ es) inum h = elim (Bool-cases (same_name e.name name)) [
  | inl t ↦ ground arith
  | inr t ↦ rw t (find-snoc name es inum (rw t at h))
]

-- Erasing one name does not change what is found under another one.
pub find-erase :
    (name other : Bytes) (es : List Dirent)
    → other ≢ name
    → find other (erase name es) ≡ find other es
unfolding find erase
find-erase name other [] differ = refl
find-erase name other (e ∷ es) differ = elim (Bool-cases (same_name e.name name)) [
  | inr t ↦ ground (arith, find-erase name other es differ)
  | inl t ↦
      let away : same_name e.name other ≡ false = elim (Bool-cases (same_name e.name other)) [
        | inr apart ↦ apart
        | inl both ↦
            absurd (differ (sym (same_name_eq e.name other both) ∙ same_name_eq e.name name t))
      ] in
      ground arith
]

pub All-erase :
    (P : Dirent → Type 0) (name : Bytes) (es : List Dirent) → All P es → All P (erase name es)
unfolding erase
All-erase P name [] h = tt
All-erase P name (e ∷ es) h = elim (Bool-cases (same_name e.name name)) [
  | inl t ↦ rw t h.1
  | inr t ↦ rw t (h.0, All-erase P name es h.1)
]
