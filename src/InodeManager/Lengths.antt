-- ===== src/InodeManager/Lengths.antt =====
-- The contents of a file are as long as its inode says.
use se.Base.{
  ℕ, ◌+◌, ◌*◌, ◌≤◌, ◌≡◌, refl, Bytes, List, [], ◌∷◌, true, inl, inr, arith, ltb, Bool-cases, length,
  take, has, if◌then◌else◌, length-append, length-take, ltb→le,
}
use se.Disk.{block_size}
use se.Inode.{Inode, ndirect}
use se.InodeManager.{nindirect}
use se.InodeManager.Loops.{rounds}
use se.InodeManager.Data.{
  max_size, direct_end, indirect_end, length-to_words, is_large, listed, file_blocks,
}
use se.InodeManager.Contents.{gather, file_bytes, content, has-direct, has-listed}

length-gather :
    (blocks : ℕ → Bytes) (ids : List ℕ) (pos size : ℕ)
    → ((j : ℕ)
        → has (take (rounds (length ids) pos size) ids) j ≡ true
        → length (blocks j) ≡ block_size)
    → length (gather blocks ids pos size) ≡ block_size * rounds (length ids) pos size
unfolding gather has rounds
length-gather blocks [] pos size h = refl
length-gather blocks (id ∷ ids) pos size h = elim (Bool-cases (ltb pos size)) [
  | inr stop ↦ rw stop refl
  | inl lt ↦
      let here : length (blocks id) ≡ block_size = h id (rw lt (ground arith)) in
      let rest =
        length-gather blocks ids (pos + block_size) size (λ j m. h j (rw lt (ground arith))) in
      rw lt (
        omega (
          arith,
          length-append (blocks id) (gather blocks ids (pos + block_size) size),
          here,
          rest,
        ))
]

-- Where the blocks are whole, the contents have the size that the inode says.
pub length-content :
    (blocks : ℕ → Bytes) (ino : Inode)
    → ino.size ≤ max_size
    → length ino.direct ≡ ndirect
    → ((j : ℕ) → has (file_blocks blocks ino) j ≡ true → length (blocks j) ≡ block_size)
    → length (content blocks ino) ≡ ino.size
length-content blocks ino fits slots h =
    let direct : length (gather blocks ino.direct 0 ino.size)
        ≡ block_size * rounds ndirect 0 ino.size =
      rw slots at (
        length-gather blocks ino.direct 0 ino.size
          (rw slots (λ j m. h j (has-direct blocks ino j m)))) in
    let parts : length (file_bytes blocks ino)
        ≡ length (gather blocks ino.direct 0 ino.size) + length (tail_bytes blocks ino) =
      unfold file_bytes in length-append (gather blocks ino.direct 0 ino.size) _ in
    let far : ino.size ≤ length (file_bytes blocks ino) = elim (Bool-cases (is_large ino)) [
      | inr small ↦ omega (arith, direct, parts, ltb→le _ _ small)
      | inl more ↦
          let count : length (listed blocks ino) ≡ nindirect =
            length-to_words nindirect (blocks ino.indirect) in
          let behind : length (gather blocks (listed blocks ino) (direct_end ino.size) ino.size)
              ≡ block_size * rounds nindirect (direct_end ino.size) ino.size =
            rw count at (
              length-gather blocks (listed blocks ino) (direct_end ino.size) ino.size
                (rw count (λ j m. h j (has-listed blocks ino j more m)))) in
          let tail : length (tail_bytes blocks ino)
              ≡ block_size * rounds nindirect (direct_end ino.size) ino.size =
            rw more behind in
          omega (arith, direct, parts, tail, indirect_end ino.size fits more)
    ] in
    unfold content in omega (arith, length-take ino.size (file_bytes blocks ino), far)
  where
    tail_bytes : (ℕ → Bytes) → Inode → Bytes
    tail_bytes blocks ino =
        if is_large ino
        then gather blocks (listed blocks ino) (direct_end ino.size) ino.size
        else []
