-- ===== src/InodeManager/Owned.antt =====
-- The blocks of a file that was just written: each was taken from the free ones, and is whole.
use se.Base.{
  ℕ, zero, suc, ◌+◌, ◌≡◌, refl, ap, ◌∙◌, Bytes, List, [], ◌∷◌, Bool, true, false, inl, inr, arith,
  Bool-cases, length, take, has, has-append, if◌then◌else◌, sym, append-nil, ◌⊎◌, ◌||◌, ◌==◌, subst,
}
use se.Disk.{Store, block_size}
use se.BlockManager.Bitmap.{marked}
use se.BlockManager.Count.{IsData}
use se.Inode.{Inode, ndirect, to_words}
use se.Inode.Layout.{to_words-from_words, length-from_words}
use se.InodeManager.{nindirect}
use se.InodeManager.Loops.{rounds, Holds, Taken}
use se.InodeManager.Loads.{length-copy_block}
use se.InodeManager.Data.{direct_end, is_large, listed, file_blocks}
use se.InodeManager.Stored.{HoldsFile, HoldsIndirect}

-- A whole data block that was free in s and is in use in t.
pub record IsNew (s t : Store) (j : ℕ) : Type 0 where
  pub inside : IsData j
  pub fresh : marked s j ≡ false
  pub used : marked t j ≡ true
  pub whole : length (t.blocks j) ≡ block_size

Taken-IsNew :
    {s t : Store} {j : ℕ} {buf : Bytes} → length buf ≡ block_size → Taken s t j buf → IsNew s t j
Taken-IsNew e k = record {
  inside = k.inside;
  fresh = k.fresh;
  used = k.used;
  whole = ap length k.content ∙ e;
}

Bool-or : (a b : Bool) → (a || b) ≡ true → (a ≡ true) ⊎ (b ≡ true)
Bool-or true b h = inl refl
Bool-or false b h = inr h

same_number : (a b : ℕ) → (a == b) ≡ true → a ≡ b
same_number a b h = ground arith

Holds-IsNew :
    (s t : Store) (memory : Bytes) (n : ℕ) (ids : List ℕ) (pos j : ℕ)
    → Holds s t memory n ids pos
    → has (take n ids) j ≡ true
    → IsNew s t j
unfolding has
Holds-IsNew s t memory zero ids pos j h m = ground arith
Holds-IsNew s t memory (suc n) [] pos j h m = ground arith
Holds-IsNew s t memory (suc n) (id ∷ ids) pos j h m =
    elim (Bool-or (id == j) (has (take n ids) j) m) [
      | inl e ↦
          subst (IsNew s t) (same_number id j e) (Taken-IsNew (length-copy_block memory pos) h.0)
      | inr e ↦ Holds-IsNew s t memory n ids (pos + block_size) j h.1 e
    ]

indirect-IsNew :
    (s t : Store) (memory : Bytes) (ino : Inode) (j : ℕ)
    → HoldsIndirect s t memory ino.indirect ino.size
    → has
        (ino.indirect
          ∷ take (rounds nindirect (direct_end ino.size) ino.size) (listed t.blocks ino))
        j
      ≡ true
    → IsNew s t j
unfolding has
indirect-IsNew s t memory ino j o m =
    let list : listed t.blocks ino ≡ o.words =
      ap (to_words nindirect) (o.block.content ∙ sym (append-nil _))
      ∙ to_words-from_words nindirect o.words [] o.count o.small in
    elim (Bool-or (ino.indirect == j) _ m) [
      | inl e ↦
          subst (IsNew s t) (same_number ino.indirect j e)
            (Taken-IsNew (omega (arith, length-from_words o.words, o.count)) o.block)
      | inr e ↦
          Holds-IsNew s t memory _ o.words (direct_end ino.size) j o.data_blocks (rw list at e)
    ]

pub HoldsFile-IsNew :
    (s t : Store) (memory : Bytes) (ino : Inode) (j : ℕ)
    → HoldsFile s t memory ino ino.size
    → has (file_blocks t.blocks ino) j ≡ true
    → IsNew s t j
unfolding file_blocks
HoldsFile-IsNew s t memory ino j o m =
    elim (Bool-or (has (take (rounds ndirect 0 ino.size) ino.direct) j) (has (tail) j)
      (sym (has-append (take (rounds ndirect 0 ino.size) ino.direct) tail j) ∙ m)) [
        | inl e ↦ Holds-IsNew s t memory _ ino.direct 0 j o.direct e
        | inr e ↦ elim (Bool-cases (is_large ino)) [
          | inl more ↦ indirect-IsNew s t memory ino j (o.indirect more) (rw more at e)
          | inr small ↦ absurd (nothing (rw small at e))
        ]
      ]
  where
    tail : List ℕ
    tail =
        if is_large ino
        then ino.indirect
          ∷ take (rounds nindirect (direct_end ino.size) ino.size) (listed t.blocks ino)
        else []

    nothing : has [] j ≡ true → ⊥
    nothing e = unfold has in ground arith
