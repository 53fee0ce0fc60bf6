-- ===== src/Inode/Layout.antt =====
-- A struct inode and an array of block addresses come back from a buffer as they were stored.
use se.Base.{
  ℕ, zero, suc, ◌*◌, ◌^◌, ◌<◌, ◌≡◌, refl, ap, ◌∙◌, Bytes, List, [], ◌∷◌, ◌++◌, append_assoc, arith,
  length, take, drop, All, drop-append,
}
use mathlib.Core.Path.{ap₂}
use se.Inode.{
  Inode, ndirect, to_bytes, from_bytes, to_words, from_words, inode_bytes, store_inode, load_inode,
}

abbrev pub IsWord : ℕ → Type 0
IsWord w = w < 2 ^ 32

-- Every field fits its type in C.
pub record IsInode (ino : Inode) : Type 0 where
  pub type : ino.type < 2 ^ 16
  pub size : IsWord ino.size
  pub atime : IsWord ino.atime
  pub mtime : IsWord ino.mtime
  pub ctime : IsWord ino.ctime
  pub slots : length ino.direct ≡ ndirect
  pub direct : All IsWord ino.direct
  pub indirect : IsWord ino.indirect

pub word_bytes : (w : ℕ) (rest : Bytes) → IsWord w → from_bytes (take 4 (to_bytes 4 w ++ rest)) ≡ w
unfolding from_bytes to_bytes
word_bytes w rest h = omega arith

short_bytes : (w : ℕ) (rest : Bytes) → w < 2 ^ 16 → from_bytes (take 2 (to_bytes 2 w ++ rest)) ≡ w
unfolding from_bytes to_bytes
short_bytes w rest h = omega arith

pub length-from_words : (ws : List ℕ) → length (from_words ws) ≡ 4 * length ws
unfolding from_words to_bytes
length-from_words [] = refl
length-from_words (w ∷ ws) = omega (arith, length-from_words ws)

from_words-append : (vs ws : List ℕ) → from_words (vs ++ ws) ≡ from_words vs ++ from_words ws
unfolding from_words to_bytes
from_words-append [] ws = refl
from_words-append (v ∷ vs) ws = rw (from_words-append vs ws)

-- An array of words is read back from the front of a buffer.
pub to_words-from_words :
    (n : ℕ) (ws : List ℕ) (rest : Bytes)
    → length ws ≡ n
    → All IsWord ws
    → to_words n (from_words ws ++ rest) ≡ ws
unfolding to_words from_words to_bytes
to_words-from_words zero [] rest e h = refl
to_words-from_words zero (w ∷ ws) rest e h = absurd (omega arith)
to_words-from_words (suc n) [] rest e h = absurd (omega arith)
to_words-from_words (suc n) (w ∷ ws) rest e h =
    ap₂ ◌∷◌ (word_bytes w (from_words ws ++ rest) h.0)
      (to_words-from_words n ws rest (omega arith) h.1)

drop_front : (n : ℕ) (xs ys : Bytes) → length xs ≡ n → drop n (xs ++ ys) ≡ ys
drop_front n xs ys e = rw (← e) (drop-append xs ys)

module _ (ino : Inode) (buf : Bytes) (h : IsInode ino) where
  blocks_text :
      from_words (ino.direct ++ ino.indirect ∷ []) ++ drop inode_bytes buf
      ≡ from_words ino.direct ++ (to_bytes 4 ino.indirect ++ drop inode_bytes buf)
  unfolding from_words to_bytes
  blocks_text = rw from_words-append (append_assoc (from_words ino.direct) _ (drop inode_bytes buf))

  load_direct : (load_inode (store_inode ino buf)).direct ≡ ino.direct
  unfolding load_inode store_inode from_words to_bytes
  load_direct =
      ap (to_words ndirect) blocks_text ∙ to_words-from_words ndirect ino.direct _ h.slots h.direct

  load_indirect : (load_inode (store_inode ino buf)).indirect ≡ ino.indirect
  unfolding load_inode store_inode from_words to_bytes
  load_indirect =
      ap (λ rest. from_bytes (take 4 (drop 400 rest))) blocks_text
      ∙ rw
          (drop_front 400 (from_words ino.direct) (to_bytes 4 ino.indirect ++ drop inode_bytes buf)
            (omega (arith, length-from_words ino.direct, h.slots)))
          (word_bytes ino.indirect (drop inode_bytes buf) h.indirect)

  load_type : (load_inode (store_inode ino buf)).type ≡ ino.type
  unfolding load_inode store_inode
  load_type = short_bytes ino.type _ h.type

  load_size : (load_inode (store_inode ino buf)).size ≡ ino.size
  unfolding load_inode store_inode from_words to_bytes
  load_size = word_bytes ino.size [] h.size

  load_atime : (load_inode (store_inode ino buf)).atime ≡ ino.atime
  unfolding load_inode store_inode from_words to_bytes
  load_atime = word_bytes ino.atime [] h.atime

  load_mtime : (load_inode (store_inode ino buf)).mtime ≡ ino.mtime
  unfolding load_inode store_inode from_words to_bytes
  load_mtime = word_bytes ino.mtime [] h.mtime

  load_ctime : (load_inode (store_inode ino buf)).ctime ≡ ino.ctime
  unfolding load_inode store_inode from_words to_bytes
  load_ctime = word_bytes ino.ctime [] h.ctime

  -- An inode whose fields fit is read back from the block that it was stored in.
  pub load_inode-store_inode : load_inode (store_inode ino buf) ≡ ino
  load_inode-store_inode = λ i. record {
    type = load_type i;
    size = load_size i;
    atime = load_atime i;
    mtime = load_mtime i;
    ctime = load_ctime i;
    direct = load_direct i;
    indirect = load_indirect i;
  }
