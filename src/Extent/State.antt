-- ===== src/Extent/State.antt =====
-- The invariant of the extent server's disk, and the table of files that the disk holds.
use se.Base.{
  ℕ, ◌^◌, ◌≤◌, ◌<◌, ◌≡◌, ◌≢◌, refl, ap, ◌∙◌, sym, subst, fun_ext, Bytes, List, [], true, inl, inr,
  arith, some, none, Option, length, has, if◌then◌else◌, ◌==◌, Option-cases, equal_or_not,
}
use se.Disk.{Store, block_size, inode_num}
use se.BlockManager.Bitmap.{marked}
use se.BlockManager.Count.{IsData}
use se.Inode.{Inode}
use se.Inode.Layout.{IsInode}
use se.InodeManager.Table.{inode_at}
use se.InodeManager.Data.{max_size, file_blocks}
use se.InodeManager.Contents.{content, file-same}
use se.InodeManager.Writing.{IsSound}
use se.Spec.{File, Files, put_file}

-- The file of an inode, and the table of all files.
abbrev pub file_of : (ℕ → Bytes) → Option Inode → Option File
file_of blocks none = none
file_of blocks (some ino) = some (record { type = ino.type; content = content blocks ino })

unfoldable pub view : Store → Files
view s id = file_of s.blocks (inode_at s id)

abbrev pub blocks_of : (ℕ → Bytes) → Option Inode → List ℕ
blocks_of blocks none = []
blocks_of blocks (some ino) = file_blocks blocks ino

-- The block j is in use by the file i.
unfoldable pub Owns : Store → ℕ → ℕ → Type 0
Owns s i j = has (blocks_of s.blocks (inode_at s i)) j ≡ true

pub record IsFile (ino : Inode) : Type 0 where
  pub layout : IsInode ino
  pub type : ino.type < 2 ^ 15
  pub size : ino.size ≤ max_size

-- Every inode is a file with whole data blocks that are marked in the bitmap, no two files share a
-- block, and the numbers behind the last one are not in use.
pub record IsGood (s : Store) : Type 0 where
  pub sound : IsSound s
  pub files : (i : ℕ) (ino : Inode) → inode_at s i ≡ some ino → IsFile ino
  pub used :
      (i j : ℕ) → Owns s i j → IsData j × (marked s j ≡ true) × (length (s.blocks j) ≡ block_size)
  pub apart : (i k j : ℕ) → Owns s i j → Owns s k j → i ≡ k
  pub fresh : (i : ℕ) → s.last_inum < i → inode_at s i ≡ none
  pub counted : s.last_inum < inode_num

-- The blocks of the other files.
unfoldable pub Others : Store → ℕ → ℕ → Type 0
Others s inum j = (k : ℕ) × (k ≢ inum) × Owns s k j

-- One entry of the table has changed, to `o`; the blocks of the other files are as they were.
pub record Changes (s t : Store) (inum : ℕ) (o : Option Inode) : Type 0 where
  pub sound : IsSound t
  pub table : (j : ℕ) → inode_at t j ≡ (if inum == j then o else inode_at s j)
  pub file : (ino : Inode) → o ≡ some ino → IsFile ino
  pub kept : (j : ℕ) → Others s inum j → (marked t j ≡ true) × (t.blocks j ≡ s.blocks j)
  pub new :
      (j : ℕ)
      → has (blocks_of t.blocks o) j ≡ true
      → IsData j × (marked t j ≡ true) × (length (t.blocks j) ≡ block_size) × ¬ Others s inum j
  pub later : s.last_inum ≤ t.last_inum
  pub inside : inum ≤ t.last_inum
  pub counted : t.last_inum < inode_num

module _ {s t : Store} {inum : ℕ} {o : Option Inode} (g : IsGood s) (c : Changes s t inum o) where
  at_self : inode_at t inum ≡ o
  at_self = c.table inum ∙ ground arith

  at_other : (k : ℕ) → k ≢ inum → inode_at t k ≡ inode_at s k
  at_other k differ = c.table k ∙ ground arith

  -- The other files are the same, and have the same blocks.
  other-same :
      (k : ℕ)
      → k ≢ inum
      → (blocks_of t.blocks (inode_at t k) ≡ blocks_of s.blocks (inode_at s k))
        × (file_of t.blocks (inode_at t k) ≡ file_of s.blocks (inode_at s k))
  unfolding Owns Others
  other-same k differ = rw (at_other k differ) (elim (Option-cases (inode_at s k)) [
    | inl e ↦ rw e (refl, refl)
    | inr (ino, e) ↦
        let (blocks, bytes) =
          file-same s.blocks t.blocks ino (g.files k ino e).layout.slots
            (λ j m. (c.kept j (k, differ, ap (λ p. has (blocks_of s.blocks p) j) e ∙ m)).1) in
        rw e (blocks, ap (λ b. some (record { type = ino.type; content = b })) bytes)
  ])

  Owns-other : (k j : ℕ) → k ≢ inum → Owns t k j → Owns s k j
  unfolding Owns
  Owns-other k j differ m = sym (ap (λ l. has l j) (other-same k differ).0) ∙ m

  others : (k j : ℕ) → k ≢ inum → Owns s k j → Others s inum j
  unfolding Others
  others k j differ m = (k, differ, m)

  Owns-self : (j : ℕ) → Owns t inum j → has (blocks_of t.blocks o) j ≡ true
  unfolding Owns
  Owns-self j m = sym (ap (λ p. has (blocks_of t.blocks p) j) at_self) ∙ m

  files_kept : (i : ℕ) (ino : Inode) → inode_at t i ≡ some ino → IsFile ino
  files_kept i ino e = elim (equal_or_not i inum) [
    | inl same ↦ c.file ino (sym at_self ∙ subst (λ k. inode_at t k ≡ some ino) same e)
    | inr differ ↦ g.files i ino (sym (at_other i differ) ∙ e)
  ]

  self_new :
      (i j : ℕ)
      → i ≡ inum
      → Owns t i j
      → IsData j × (marked t j ≡ true) × (length (t.blocks j) ≡ block_size) × ¬ Others s inum j
  self_new i j same m = c.new j (Owns-self j (subst (λ k. Owns t k j) same m))

  used_kept :
      (i j : ℕ) → Owns t i j → IsData j × (marked t j ≡ true) × (length (t.blocks j) ≡ block_size)
  used_kept i j m = elim (equal_or_not i inum) [
    | inl same ↦ let (d, used, whole, _) = self_new i j same m in (d, used, whole)
    | inr differ ↦
        let owned = Owns-other i j differ m in
        let (d, _, whole) = g.used i j owned in
        let (used, block) = c.kept j (others i j differ owned) in (d, used, ap length block ∙ whole)
  ]

  apart_kept : (i k j : ℕ) → Owns t i j → Owns t k j → i ≡ k
  apart_kept i k j m n = elim (equal_or_not i inum) [
    | inl same ↦ elim (equal_or_not k inum) [
      | inl same' ↦ same ∙ sym same'
      | inr differ' ↦
          absurd ((self_new i j same m).3 (others k j differ' (Owns-other k j differ' n)))
    ]
    | inr differ ↦ elim (equal_or_not k inum) [
      | inl same' ↦ absurd ((self_new k j same' n).3 (others i j differ (Owns-other i j differ m)))
      | inr differ' ↦ g.apart i k j (Owns-other i j differ m) (Owns-other k j differ' n)
    ]
  ]

  -- The invariant is kept.
  pub Changes-IsGood : IsGood t
  Changes-IsGood = record {
    sound = c.sound;
    files = files_kept;
    used = used_kept;
    apart = apart_kept;
    fresh = λ i h. at_other i (λ e. omega (arith, c.inside)) ∙ g.fresh i (omega (arith, c.later));
    counted = c.counted;
  }

  -- And the table of files changes in this one entry.
  pub view-Changes : view t ≡ put_file (view s) inum (file_of t.blocks o)
  unfolding view
  view-Changes = fun_ext λ j. elim (equal_or_not j inum) [
    | inl same ↦
        subst (λ k. file_of t.blocks (inode_at t k) ≡ put_file (view s) inum (file_of t.blocks o) k)
          (sym same) (ap (file_of t.blocks) at_self ∙ ground arith)
    | inr differ ↦ (other-same j differ).1 ∙ ground arith
  ]
