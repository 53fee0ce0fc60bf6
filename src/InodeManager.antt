-- ===== src/InodeManager.antt =====
-- class inode_manager of inode_manager.cc: the inode table and the blocks of a file.
pub mod Loops
pub mod Loads
pub mod Frees
pub mod Table
pub mod Data
pub mod Stored
pub mod Stores
pub mod Same
pub mod Lengths
pub mod Writing
pub mod Reading
pub mod Creating
pub mod Limits
pub mod Removing
pub mod Contents
pub mod Owned
use se.Base.{
  ℕ, ◌+◌, ◌-◌, ◌/◌, ◌%◌, ◌^◌, Bytes, List, [], ◌∷◌, ◌++◌, Option, none, some, M, pure, gets, get_or,
  fault, modify, guard, ◌>>=◌, ◌>>◌, ltb, leb, ◌==◌, if◌then◌else◌, take, drop, replicate, length,
}
use se.Disk.{Store, World, block_size, inode_num, read_block, write_block, ask}
use se.BlockManager.{format_disk, bpb, alloc_block, free_block}
use se.Inode.{Inode, ndirect, to_words, from_words, store_inode, load_inode}

-- extent_protocol::types. `T_SYMLINK` is used by yfs_client.cc and declared nowhere.
abbrev pub t_dir : ℕ
t_dir = 1

abbrev pub t_file : ℕ
t_file = 2

-- extent_protocol::attr
pub record Attr : Type 0 where
  pub type : ℕ
  pub atime : ℕ
  pub mtime : ℕ
  pub ctime : ℕ
  pub size : ℕ

-- IBLOCK, with IPB = 1: the block that holds inode i.
abbrev pub iblock : ℕ → ℕ → ℕ
iblock i nblocks = nblocks / bpb + i / 1 + 3

-- NINDIRECT: the words of a block.
abbrev pub nindirect : ℕ
nindirect = block_size / 4

-- `inum` is an uint32_t, so it is not negative; `none` is NULL.
unfoldable pub get_inode : ℕ → M Store (Option Inode)
get_inode inum = if leb inode_num inum then pure none else do
  nblocks ← gets λ s. s.sb.nblocks
  buf ← read_block (iblock inum nblocks)
  let ino = load_inode buf
  pure (if ino.type == 0 then none else some ino)

-- `*ino`, which is a fault if `ino` is NULL.
abbrev pub deref : Option Inode → M Store Inode
deref none = fault
deref (some ino) = pure ino

-- Every caller passes a pointer that is not NULL.
unfoldable pub put_inode : ℕ → Inode → M Store (Unit {0})
put_inode inum ino = do
  nblocks ← gets λ s. s.sb.nblocks
  buf ← read_block (iblock inum nblocks)
  write_block (iblock inum nblocks) (store_inode ino buf)

-- `ino->type` is a short. The block addresses are what `malloc` left in the buffer.
unfoldable pub alloc_inode : ℕ → M Store ℕ
alloc_inode type = do
  inum ← gets λ s. s.last_inum + 1
  modify λ s. record s { last_inum = inum }
  w ← ask
  put_inode inum (record {
    type = type % 2 ^ 16;
    size = 0;
    atime = w.now;
    mtime = w.now;
    ctime = w.now;
    direct = take ndirect (w.junk ++ replicate ndirect 0);
    indirect = get_or w.junk ndirect 0;
  })
  pure inum

-- `memset` of a struct inode
abbrev pub zero_inode : Inode
zero_inode = record {
  type = 0;
  size = 0;
  atime = 0;
  mtime = 0;
  ctime = 0;
  direct = replicate ndirect 0;
  indirect = 0;
}

unfoldable pub clear_inode : ℕ → Option Inode → M Store (Unit {0})
clear_inode inum none = pure tt
clear_inode inum (some prev_ino) = do
  nblocks ← gets λ s. s.sb.nblocks
  buf ← read_block (iblock inum nblocks)
  write_block (iblock inum nblocks) (store_inode zero_inode buf)

unfoldable pub free_inode : ℕ → M Store (Unit {0})
free_inode inum = do prev_ino ← get_inode inum; clear_inode inum prev_ino

-- How far a loop goes that compares an int with an int: `size` gives the 32 bits of the bound,
-- which is negative from 2 ^ 31 on.
unfoldable pub loop_size : ℕ → ℕ
loop_size size = if ltb size (2 ^ 31) then size else 0

-- The blocks of the list, as long as `pos` has not reached `size`: their contents, and the last
-- `pos`. Both loops of `read_file` are this loop.
unfoldable pub load_blocks : List ℕ → ℕ → ℕ → M Store (Bytes × ℕ)
load_blocks [] pos size = pure ([], pos)
load_blocks (id ∷ ids) pos size =
    if ltb pos size
    then (do
      buf ← read_block id
      (rest, end) ← load_blocks ids (pos + block_size) size
      pure (buf ++ rest, end))
    else pure ([], pos)

-- The loops of `write_file` and of `remove_file` that free.
unfoldable pub free_blocks : List ℕ → ℕ → ℕ → M Store ℕ
free_blocks [] pos size = pure pos
free_blocks (id ∷ ids) pos size =
    if ltb pos size then (do free_block id; free_blocks ids (pos + block_size) size) else pure pos

-- The 512 bytes of memory from `pos` on, as `memcpy` reads them, also behind the string.
abbrev pub copy_block : Bytes → ℕ → Bytes
copy_block memory pos = take block_size (drop pos memory ++ replicate block_size 0)

-- The loops of `write_file` that allocate, over the slots for the block addresses.
unfoldable pub store_blocks : Bytes → List ℕ → ℕ → ℕ → M Store (List ℕ × ℕ)
store_blocks memory [] pos size = pure ([], pos)
store_blocks memory (slot ∷ slots) pos size =
    if ltb pos size
    then (do
      id ← alloc_block
      write_block id (copy_block memory pos)
      (ids, end) ← store_blocks memory slots (pos + block_size) size
      pure (id ∷ ids, end))
    else pure (slot ∷ slots, pos)

-- The indirect block as an array of addresses. A loop over it that has not reached `size` at its
-- end goes on outside the buffer, which is a fault.
unfoldable pub read_words : ℕ → M Store (List ℕ)
read_words id = do buf ← read_block id; pure (to_words nindirect buf)

unfoldable pub load_indirect : ℕ → ℕ → ℕ → M Store Bytes
load_indirect id pos size = do
  words ← read_words id
  (bytes, end) ← load_blocks words pos size
  guard (leb size end)
  pure bytes

unfoldable pub free_indirect : ℕ → ℕ → ℕ → M Store (Unit {0})
free_indirect id pos size = do
  words ← read_words id
  end ← free_blocks words pos size
  guard (leb size end)
  free_block id

unfoldable pub store_indirect : Bytes → ℕ → ℕ → M Store ℕ
store_indirect memory pos size = do
  id ← alloc_block
  w ← ask
  let buffer = take nindirect (w.junk ++ replicate nindirect 0)
  (words, end) ← store_blocks memory buffer pos size
  guard (leb size end)
  write_block id (from_words words)
  pure id

-- The lines of `write_file` that free, which compare with the unsigned `ino->size`, and phase 1 of
-- `remove_file` for the bound that it has.
unfoldable pub free_data : Inode → M Store (Unit {0})
free_data ino = do
  end ← free_blocks ino.direct 0 ino.size
  if ltb end ino.size then free_indirect ino.indirect end ino.size else pure tt

unfoldable pub load_data : Inode → M Store Bytes
load_data ino = do
  (bytes, end) ← load_blocks ino.direct 0 ino.size
  if ltb end ino.size
      then (do rest ← load_indirect ino.indirect end ino.size; pure (bytes ++ rest))
      else pure bytes

-- The new block addresses.
unfoldable pub store_data : Bytes → Inode → ℕ → M Store Inode
store_data memory ino size = do
  (direct, end) ← store_blocks memory ino.direct 0 size
  if ltb end size
      then (do
        indirect ← store_indirect memory end size
        pure (record ino { direct = direct; indirect = indirect }))
      else pure (record ino { direct = direct })

-- The buffer as far as it is filled, and the 32 bits of `*size`.
unfoldable pub read_file : ℕ → M Store (Bytes × ℕ)
read_file inum = do
  p ← get_inode inum
  ino ← deref p
  bytes ← load_data (record ino { size = loop_size ino.size })
  w ← ask
  put_inode inum (record ino { atime = w.now })
  pure (bytes, ino.size)

-- `size` is given by its 32 bits; what lies behind `buf` is what the environment says.
unfoldable pub write_file : ℕ → Bytes → ℕ → M Store (Unit {0})
write_file inum buf size = do
  p ← get_inode inum
  ino ← deref p
  free_data ino
  w ← ask
  stored ← store_data (buf ++ w.beyond) ino (loop_size size)
  v ← ask
  put_inode inum (record stored { size = size; mtime = v.now; ctime = v.now })

-- A short as an uint32_t: the sign is extended.
abbrev pub widen : ℕ → ℕ
widen t = if ltb t (2 ^ 15) then t else t + 2 ^ 32 - 2 ^ 16

abbrev pub attr_of : Option Inode → Attr → Attr
attr_of none a = a
attr_of (some ino) a = record {
  type = widen ino.type;
  atime = ino.atime;
  mtime = ino.mtime;
  ctime = ino.ctime;
  size = ino.size;
}

-- The attributes `a` stay as they are if there is no such inode.
unfoldable pub getattr : ℕ → Attr → M Store Attr
getattr inum a = do p ← get_inode inum; pure (attr_of p a)

unfoldable pub remove_file : ℕ → M Store (Unit {0})
remove_file inum = do
  p ← get_inode inum
  ino ← deref p
  free_data (record ino { size = loop_size ino.size })
  free_inode inum

-- `inode_manager::inode_manager`; `exit` is a fault.
unfoldable pub boot : (ℕ → World) → Option Store
boot world = elim (alloc_inode t_dir (format_disk world)) [
  | none ↦ none
  | some (root_dir, s) ↦ if root_dir == 1 then some s else none
]
