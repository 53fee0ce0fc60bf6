-- ===== src/InodeManager/Same.antt =====
-- Data blocks that an operation leaves alone: a file in them is still held.
use se.Base.{ℕ, suc, zero, ◌+◌, ◌<◌, ◌≡◌, refl, ◌∙◌, Bytes, List, [], ◌∷◌, arith}
use se.Disk.{Store, inode_num, block_size}
use se.BlockManager.Bitmap.{marked}
use se.BlockManager.Count.{IsData}
use se.BlockManager.Growth.{ticked, marked-put_block, blocks-put_block, marked-ticked}
use se.Inode.{Inode, store_inode}
use se.InodeManager.Loops.{Holds}
use se.InodeManager.Table.{slot, put_slot}
use se.InodeManager.Stored.{HoldsFile, HoldsIndirect}

-- No data block differs.
abbrev pub SameData : Store → Store → Type 0
SameData t u = (j : ℕ) → IsData j → (marked u j ≡ marked t j) × (u.blocks j ≡ t.blocks j)

Holds-same :
    (s t u : Store) (memory : Bytes) (n : ℕ) (ids : List ℕ) (pos : ℕ)
    → SameData t u
    → Holds s t memory n ids pos
    → Holds s u memory n ids pos
Holds-same s t u memory zero ids pos e h = tt
Holds-same s t u memory (suc n) [] pos e h = h
Holds-same s t u memory (suc n) (id ∷ ids) pos e h = (
  record {
    inside = h.0.inside;
    fresh = h.0.fresh;
    used = (e id h.0.inside).0 ∙ h.0.used;
    content = (e id h.0.inside).1 ∙ h.0.content;
  },
  Holds-same s t u memory n ids (pos + block_size) e h.1,
)

HoldsIndirect-same :
    {s t u : Store} {memory : Bytes} {id size : ℕ}
    → SameData t u
    → HoldsIndirect s t memory id size
    → HoldsIndirect s u memory id size
HoldsIndirect-same {s} {t} {u} {memory} {id} {size} e h = record {
  words = h.words;
  count = h.count;
  small = h.small;
  block = record {
    inside = h.block.inside;
    fresh = h.block.fresh;
    used = (e id h.block.inside).0 ∙ h.block.used;
    content = (e id h.block.inside).1 ∙ h.block.content;
  };
  data_blocks = Holds-same s t u memory _ h.words _ e h.data_blocks;
}

pub HoldsFile-same :
    {s t u : Store} {memory : Bytes} {ino : Inode} {size : ℕ}
    → SameData t u
    → HoldsFile s t memory ino size
    → HoldsFile s u memory ino size
HoldsFile-same {s} {t} {u} {memory} {ino} {size} e h = record {
  slots = h.slots;
  direct = Holds-same s t u memory _ ino.direct 0 e h.direct;
  indirect = λ more. HoldsIndirect-same e (h.indirect more);
}

pub SameData-ticked : (t : Store) (k : ℕ) → SameData t (ticked t k)
SameData-ticked t k j d = (marked-ticked t k j, unfold ticked in refl)

pub SameData-put_slot :
    (t : Store) (inum : ℕ) (ino : Inode) → inum < inode_num → SameData t (put_slot t inum ino)
unfolding put_slot
SameData-put_slot t inum ino h j d = (
  marked-put_block t (slot inum) _ j (omega arith) d,
  ground (arith, blocks-put_block t (slot inum) (store_inode ino (t.blocks (slot inum))) j),
)
