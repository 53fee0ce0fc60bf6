-- ===== src/Inode.antt =====
-- struct inode (inode_manager.h) and its layout in memory, on which the casts between a buffer and
-- `struct inode *` or `blockid_t *` rest: little-endian words, the short padded to four bytes.
pub mod Layout
use se.Base.{ℕ, zero, suc, ◌+◌, ◌*◌, ◌/◌, ◌%◌, Bytes, List, [], ◌∷◌, ◌++◌, take, drop}

abbrev pub ndirect : ℕ
ndirect = 100

-- `direct` is blocks[0] to blocks[NDIRECT - 1], and `indirect` is blocks[NDIRECT].
pub record Inode : Type 0 where
  pub type : ℕ
  pub size : ℕ
  pub atime : ℕ
  pub mtime : ℕ
  pub ctime : ℕ
  pub direct : List ℕ
  pub indirect : ℕ

-- n bytes of a number, the lowest first.
unfoldable pub to_bytes : ℕ → ℕ → Bytes
to_bytes zero v = []
to_bytes (suc n) v = (v % 256) ∷ to_bytes n (v / 256)

unfoldable pub from_bytes : Bytes → ℕ
from_bytes [] = 0
from_bytes (b ∷ bs) = b + 256 * from_bytes bs

-- An array of 32-bit words.
unfoldable pub to_words : ℕ → Bytes → List ℕ
to_words zero bs = []
to_words (suc n) bs = from_bytes (take 4 bs) ∷ to_words n (drop 4 bs)

unfoldable pub from_words : List ℕ → Bytes
from_words [] = []
from_words (w ∷ ws) = to_bytes 4 w ++ from_words ws

-- The short `type`, two bytes of padding, and the words behind it.
abbrev pub fields : Inode → List ℕ
fields ino = ino.size ∷ ino.atime ∷ ino.mtime ∷ ino.ctime ∷ (ino.direct ++ ino.indirect ∷ [])

-- sizeof(struct inode)
abbrev pub inode_bytes : ℕ
inode_bytes = 424

-- `*ino_disk = *ino` over the buffer of a block.
unfoldable pub store_inode : Inode → Bytes → Bytes
store_inode ino buf =
    to_bytes 2 ino.type ++ (0 ∷ 0 ∷ (from_words (fields ino) ++ drop inode_bytes buf))

abbrev word_at : Bytes → ℕ → ℕ
word_at buf off = from_bytes (take 4 (drop off buf))

-- `*ino = *ino_disk`
unfoldable pub load_inode : Bytes → Inode
load_inode buf = record {
  type = from_bytes (take 2 buf);
  size = word_at buf 4;
  atime = word_at buf 8;
  mtime = word_at buf 12;
  ctime = word_at buf 16;
  direct = to_words ndirect (drop 20 buf);
  indirect = word_at buf (20 + 4 * ndirect);
}
