-- ===== src/InodeManager/Limits.antt =====
-- What inode_manager.cc does not check: a null inode and a file that is too large.
use se.Base.{
  ℕ, suc, ◌+◌, ◌*◌, ◌^◌, ◌≤◌, ◌<◌, ◌≡◌, ap, ◌∙◌, Bytes, List, [], ◌∷◌, ◌++◌, true, false, inl, inr,
  arith, some, none, ltb, Bool-cases, Option-cases, >>=-eq-some, ◌>>=◌, ◌>>◌, M, pure, sym, ltb→le,
  leb, leb→le, guard, guard_holds, >>=-some, if◌then◌else◌, length, drop,
}
use se.Disk.{Store, block_size, write_block, ask}
use se.BlockManager.{alloc_block}
use se.Inode.{Inode, ndirect, load_inode}
use se.InodeManager.{
  nindirect, store_blocks, store_indirect, store_data, get_inode, free_data, put_inode, read_file,
  write_file, remove_file, copy_block, deref, loop_size,
}
use se.InodeManager.Table.{slot, inode_at, IsFormatted, get_inode-inode_at}
use se.InodeManager.Data.{max_size, loop_size_lem, length-to_words}
use se.InodeManager.Stores.{fresh_words, length-fresh_words}

-- Reading, writing or removing a file that is not there goes through a null pointer.
pub missing_inode_faults :
    (s : Store) (inum : ℕ) (buf : Bytes) (size : ℕ)
    → IsFormatted s
    → inode_at s inum ≡ none
    → (read_file inum s ≡ none) × (write_file inum buf size s ≡ none) × (remove_file inum s ≡ none)
unfolding read_file write_file remove_file
missing_inode_faults s inum buf size f e =
    let null : get_inode inum s ≡ some (none, s) =
      get_inode-inode_at s inum f ∙ ap (λ p. some (p, s)) e in
    (ground arith, ground arith, ground arith)

-- The rest of a round that stores.
abbrev stores_more : Bytes → List ℕ → ℕ → ℕ → ℕ → M Store (List ℕ × ℕ)
stores_more memory slots pos size id = do
  write_block id (copy_block memory pos)
  (ids, end) ← store_blocks memory slots (pos + block_size) size
  pure (id ∷ ids, end)

store_blocks_round :
    (memory : Bytes) (slot : ℕ) (slots : List ℕ) (pos size : ℕ) (s : Store)
    → ltb pos size ≡ true
    → store_blocks memory (slot ∷ slots) pos size s
      ≡ (alloc_block >>= stores_more memory slots pos size) s
unfolding store_blocks
store_blocks_round memory slot slots pos size s lt = rw lt

-- The loop ends within its blocks.
store_blocks_end :
    (memory : Bytes) (slots : List ℕ) (pos size : ℕ) (s : Store) (r : (List ℕ × ℕ) × Store)
    → store_blocks memory slots pos size s ≡ some r
    → r.0.1 ≤ pos + block_size * length slots
store_blocks_end memory [] pos size s r e = unfold store_blocks in ground arith
store_blocks_end memory (slot ∷ slots) pos size s r e = elim (Bool-cases (ltb pos size)) [
  | inr stop ↦ stopped stop
  | inl lt ↦
      let (id, t, _, after) =
        >>=-eq-some alloc_block (stores_more memory slots pos size) s
          (sym (store_blocks_round memory slot slots pos size s lt) ∙ e) in
      let (_, u, _, stored) = >>=-eq-some (write_block id (copy_block memory pos)) _ t after in
      let (q, v, loop, same) =
        >>=-eq-some (store_blocks memory slots (pos + block_size) size) _ u stored in
      let bound = store_blocks_end memory slots (pos + block_size) size u (q, v) loop in
      ground (arith, bound)
]
  where
    stopped : ltb pos size ≡ false → r.0.1 ≤ pos + block_size * suc (length slots)
    stopped stop = unfold store_blocks in ground arith

store_indirect_end :
    (memory : Bytes) (pos size : ℕ) (s : Store) (r : ℕ × Store)
    → store_indirect memory pos size s ≡ some r
    → size ≤ pos + block_size * nindirect
unfolding store_indirect
store_indirect_end memory pos size s r e =
    let (id, t, _, e1) = >>=-eq-some alloc_block _ s e in
    let (w, u, _, e2) = >>=-eq-some ask _ t e1 in
    let (q, v, loop, e3) =
      >>=-eq-some (store_blocks memory (fresh_words w nindirect) pos size) _ u e2 in
    let bound = store_blocks_end memory (fresh_words w nindirect) pos size u (q, v) loop in
    let (_, _, held, _) = >>=-eq-some (guard (leb size q.1)) _ v e3 in
    omega
      (arith, bound, length-fresh_words w nindirect, leb→le _ _ (guard_holds (leb size q.1) v held))

-- What `store_data` does behind the direct blocks.
abbrev store_rest : Bytes → Inode → ℕ → List ℕ → ℕ → M Store Inode
store_rest memory ino size direct end =
    if ltb end size
    then (do
      indirect ← store_indirect memory end size
      pure (record ino { direct = direct; indirect = indirect }))
    else pure (record ino { direct = direct })

store_rest_end :
    (memory : Bytes) (ino : Inode) (size : ℕ) (direct : List ℕ) (end : ℕ) (t : Store)
    (r : Inode × Store)
    → store_rest memory ino size direct end t ≡ some r
    → size ≤ end + block_size * nindirect
store_rest_end memory ino size direct end t r e = elim (Bool-cases (ltb end size)) [
  | inr done ↦ omega (arith, ltb→le _ _ done)
  | inl more ↦
      let (id, u, indirect, _) =
        >>=-eq-some (store_indirect memory end size)
          (λ i. pure (record ino { direct = direct; indirect = i })) t (rw more at e) in
      store_indirect_end memory end size t (id, u) indirect
]

store_data_end :
    (memory : Bytes) (ino : Inode) (size : ℕ) (s : Store) (r : Inode × Store)
    → length ino.direct ≡ ndirect
    → store_data memory ino size s ≡ some r
    → size ≤ max_size
unfolding store_data
store_data_end memory ino size s r slots e =
    let (q, t, loop, e1) = >>=-eq-some (store_blocks memory ino.direct 0 size) _ s e in
    omega (
      arith,
      slots,
      store_blocks_end memory ino.direct 0 size s (q, t) loop,
      store_rest_end memory ino size q.0 q.1 t r e1,
    )

-- `write_file` behind its look at the table.
abbrev write_rest : ℕ → Bytes → ℕ → Inode → M Store (Unit {0})
write_rest inum buf size ino = do
  free_data ino
  w ← ask
  stored ← store_data (buf ++ w.beyond) ino (loop_size size)
  v ← ask
  put_inode inum (record stored { size = size; mtime = v.now; ctime = v.now })

write_file-write_rest :
    (inum : ℕ) (buf : Bytes) (size : ℕ) (ino : Inode) (s : Store)
    → get_inode inum s ≡ some (some ino, s)
    → write_file inum buf size s ≡ write_rest inum buf size ino s
unfolding write_file
write_file-write_rest inum buf size ino s e =
    >>=-some (get_inode inum) (λ p. deref p >>= write_rest inum buf size) e

write_rest_end :
    (inum : ℕ) (buf : Bytes) (size : ℕ) (ino : Inode) (s : Store) (r : Unit {0} × Store)
    → length ino.direct ≡ ndirect
    → write_rest inum buf size ino s ≡ some r
    → loop_size size ≤ max_size
write_rest_end inum buf size ino s r slots e =
    let (_, t, _, e1) = >>=-eq-some (free_data ino) _ s e in
    let (w, u, _, e2) = >>=-eq-some ask _ t e1 in
    let (stored, v, data_stored, _) =
      >>=-eq-some (store_data (buf ++ w.beyond) ino (loop_size size)) _ u e2 in
    store_data_end (buf ++ w.beyond) ino (loop_size size) u (stored, v) slots data_stored

-- An inode that comes from the disk has all its slots.
length-direct :
    (s : Store) (inum : ℕ) (ino : Inode) → inode_at s inum ≡ some ino → length ino.direct ≡ ndirect
unfolding inode_at load_inode
length-direct s inum ino e =
    ground (arith, length-to_words ndirect (drop 20 (s.blocks (slot inum))))

-- A size of more than MAXFILE blocks is not refused, if it is below 2 ^ 31, so that the int is
-- positive: the loop over the indirect block writes outside its buffer, or the disk is full
-- before. No such call comes back, whatever the buffer is. The inode is in the table.
pub write_file_too_large :
    (s : Store) (inum : ℕ) (ino : Inode) (buf : Bytes) (size : ℕ)
    → IsFormatted s
    → inode_at s inum ≡ some ino
    → max_size < size
    → size < 2 ^ 31
    → write_file inum buf size s ≡ none
write_file_too_large s inum ino buf size f found large positive =
    elim (Option-cases (write_rest inum buf size ino s)) [
      | inl e ↦ same ∙ e
      | inr (r, e) ↦
          absurd (below (write_rest_end inum buf size ino s r (length-direct s inum ino found) e))
    ]
  where
    below : loop_size size ≤ max_size → ⊥
    below h = absurd (omega (arith, loop_size_lem size positive))

    same : write_file inum buf size s ≡ write_rest inum buf size ino s
    same =
        write_file-write_rest inum buf size ino s
          (get_inode-inode_at s inum f ∙ ap (λ p. some (p, s)) found)
