-- ===== src/InodeManager/Contents.antt =====
-- What a file holds, as a function of its inode and of the blocks of the disk.
use se.Base.{
  ℕ, ◌+◌, ◌≤◌, ◌<◌, ◌≡◌, refl, ap, ◌∙◌, Bytes, List, [], ◌∷◌, ◌++◌, true, inl, inr, arith, some,
  ltb, Bool-cases, length, All, take, has, has-append_left, has-append_right, All-has,
  if◌then◌else◌, sym, append-nil,
}
use se.Disk.{Store, block_size, block_num}
use se.BlockManager.Alloc.{read_bitmap}
use se.Inode.{Inode, ndirect, to_words}
use se.InodeManager.{nindirect, load_blocks, load_indirect, load_data}
use se.InodeManager.Loops.{rounds, rounds_more, rounds_done, ends}
use se.InodeManager.Data.{
  max_size, direct_end, indirect_end, read_words_lem, length-to_words, is_large, listed,
  file_blocks,
}
use se.InodeManager.Stored.{load_indirect_step, load_data_step}

-- The blocks of the list one behind the other, as long as `pos` has not reached `size`.
unfoldable pub gather : (ℕ → Bytes) → List ℕ → ℕ → ℕ → Bytes
gather blocks [] pos size = []
gather blocks (id ∷ ids) pos size =
    if ltb pos size then blocks id ++ gather blocks ids (pos + block_size) size else []

unfoldable pub file_bytes : (ℕ → Bytes) → Inode → Bytes
file_bytes blocks ino =
    gather blocks ino.direct 0 ino.size
    ++ (if is_large ino
        then gather blocks (listed blocks ino) (direct_end ino.size) ino.size
        else [])

-- The contents of a file.
unfoldable pub content : (ℕ → Bytes) → Inode → Bytes
content blocks ino = take ino.size (file_bytes blocks ino)

abbrev InDisk : ℕ → Type 0
InDisk id = id < block_num

load_step :
    (id : ℕ) (ids : List ℕ) (pos size : ℕ) (s : Store) {rest : Bytes} {end : ℕ}
    → ltb pos size ≡ true
    → id < block_num
    → load_blocks ids (pos + block_size) size s ≡ some ((rest, end), s)
    → load_blocks (id ∷ ids) pos size s ≡ some ((s.blocks id ++ rest, end), s)
unfolding load_blocks
load_step id ids pos size s lt h e = ground (arith, read_bitmap s id h)

pub gather_more :
    (blocks : ℕ → Bytes) (id : ℕ) (ids : List ℕ) (pos size : ℕ)
    → ltb pos size ≡ true
    → gather blocks (id ∷ ids) pos size ≡ blocks id ++ gather blocks ids (pos + block_size) size
unfolding gather
gather_more blocks id ids pos size lt = rw lt

pair : {a b : Bytes} {m n : ℕ} → a ≡ b → m ≡ n → ◌≡◌ {A = Bytes × ℕ} (a, m) (b, n)
pair e f = λ i. (e i, f i)

load_blocks-gather :
    (ids : List ℕ) (pos size : ℕ) (s : Store)
    → All InDisk (take (rounds (length ids) pos size) ids)
    → load_blocks ids pos size s
      ≡ some ((gather s.blocks ids pos size, ends (length ids) pos size), s)
load_blocks-gather [] pos size s h =
    unfold load_blocks gather rounds in ap (λ (p : ℕ). some (([], p), s)) (omega arith)
load_blocks-gather (id ∷ ids) pos size s h = elim (Bool-cases (ltb pos size)) [
  | inr stop ↦
      rw (rounds_done (length ids) pos size stop)
        (unfold load_blocks gather in rw stop (ap (λ (p : ℕ). some (([], p), s)) (omega arith)))
  | inl lt ↦
      let more = rounds_more (length ids) pos size lt in
      let (first, rest) = rw more at h in
      let e =
        load_step id ids pos size s lt first
          (load_blocks-gather ids (pos + block_size) size s rest) in
      e
      ∙ ap (λ (p : Bytes × ℕ). some (p, s))
          (pair (sym (gather_more s.blocks id ids pos size lt)) (omega (arith, more)))
]

-- The three parts of the list of blocks.
pub has-direct :
    (blocks : ℕ → Bytes) (ino : Inode) (j : ℕ)
    → has (take (rounds ndirect 0 ino.size) ino.direct) j ≡ true
    → has (file_blocks blocks ino) j ≡ true
unfolding file_blocks
has-direct blocks ino j h = has-append_left (take (rounds ndirect 0 ino.size) ino.direct) _ j h

pub has-indirect :
    (blocks : ℕ → Bytes) (ino : Inode)
    → is_large ino ≡ true
    → has (file_blocks blocks ino) ino.indirect ≡ true
unfolding file_blocks has
has-indirect blocks ino h =
    rw h
      (has-append_right (take (rounds ndirect 0 ino.size) ino.direct) _ ino.indirect (ground arith))

pub has-listed :
    (blocks : ℕ → Bytes) (ino : Inode) (j : ℕ)
    → is_large ino ≡ true
    → has (take (rounds nindirect (direct_end ino.size) ino.size) (listed blocks ino)) j ≡ true
    → has (file_blocks blocks ino) j ≡ true
unfolding file_blocks has
has-listed blocks ino j h m =
    rw h (has-append_right (take (rounds ndirect 0 ino.size) ino.direct) _ j (ground arith))

-- `load_data` gives these bytes, if the blocks are on the disk.
pub load_data-file_bytes :
    (ino : Inode) (s : Store)
    → ino.size ≤ max_size
    → length ino.direct ≡ ndirect
    → ((j : ℕ) → has (file_blocks s.blocks ino) j ≡ true → j < block_num)
    → load_data ino s ≡ some (file_bytes s.blocks ino, s)
load_data-file_bytes ino s fits slots h =
    let direct : load_blocks ino.direct 0 ino.size s
        ≡ some ((gather s.blocks ino.direct 0 ino.size, direct_end ino.size), s) =
      rw slots at (
        load_blocks-gather ino.direct 0 ino.size s (
          rw slots (
            All-has InDisk (take (rounds ndirect 0 ino.size) ino.direct)
              (λ j m. h j (has-direct s.blocks ino j m))))) in
    load_data_step ino s direct (λ more. behind more) (λ more. unfold file_bytes in rw more refl)
      (λ done. unfold file_bytes in rw done (append-nil _))
  where
    behind :
        is_large ino ≡ true
        → load_indirect ino.indirect (direct_end ino.size) ino.size s
          ≡ some (gather s.blocks (listed s.blocks ino) (direct_end ino.size) ino.size, s)
    behind more =
        let count : length (listed s.blocks ino) ≡ nindirect =
          length-to_words nindirect (s.blocks ino.indirect) in
        load_indirect_step ino.indirect (direct_end ino.size) ino.size s
          (read_words_lem s ino.indirect (h ino.indirect (has-indirect s.blocks ino more)))
          (load_blocks-gather (listed s.blocks ino) (direct_end ino.size) ino.size s (
            rw count (
              All-has InDisk
                (take (rounds nindirect (direct_end ino.size) ino.size) (listed s.blocks ino))
                (λ j m. h j (has-listed s.blocks ino j more m)))))
          (rw count (indirect_end ino.size fits more))

gather-same :
    (f g : ℕ → Bytes) (ids : List ℕ) (pos size : ℕ)
    → ((j : ℕ) → has (take (rounds (length ids) pos size) ids) j ≡ true → g j ≡ f j)
    → gather g ids pos size ≡ gather f ids pos size
unfolding gather has
gather-same f g [] pos size h = refl
gather-same f g (id ∷ ids) pos size h = elim (Bool-cases (ltb pos size)) [
  | inr stop ↦ rw stop refl
  | inl lt ↦
      let more = rounds_more (length ids) pos size lt in
      let here : g id ≡ f id = h id (rw more (ground arith)) in
      let rest =
        gather-same f g ids (pos + block_size) size (λ j m. h j (rw more (ground arith))) in
      rw (lt, here, rest) refl
]

-- A file is as it was where its blocks are.
pub file-same :
    (f g : ℕ → Bytes) (ino : Inode)
    → length ino.direct ≡ ndirect
    → ((j : ℕ) → has (file_blocks f ino) j ≡ true → g j ≡ f j)
    → (file_blocks g ino ≡ file_blocks f ino) × (content g ino ≡ content f ino)
file-same f g ino slots h =
    let direct : gather g ino.direct 0 ino.size ≡ gather f ino.direct 0 ino.size =
      gather-same f g ino.direct 0 ino.size (rw slots (λ j m. h j (has-direct f ino j m))) in
    elim (Bool-cases (is_large ino)) [
      | inr small ↦ (
        unfold file_blocks in rw small refl,
        unfold content file_bytes in rw (small, direct) refl,
      )
      | inl more ↦
          let list : listed g ino ≡ listed f ino =
            ap (to_words nindirect) (h ino.indirect (has-indirect f ino more)) in
          let count : length (listed f ino) ≡ nindirect =
            length-to_words nindirect (f ino.indirect) in
          let rest : gather g (listed f ino) (direct_end ino.size) ino.size
              ≡ gather f (listed f ino) (direct_end ino.size) ino.size =
            gather-same f g (listed f ino) (direct_end ino.size) ino.size
              (rw count (λ j m. h j (has-listed f ino j more m))) in
          (
            unfold file_blocks in rw (more, list) refl,
            unfold content file_bytes in rw (more, direct, list, rest) refl,
          )
    ]
