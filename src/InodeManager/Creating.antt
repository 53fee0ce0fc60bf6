-- ===== src/InodeManager/Creating.antt =====
-- `alloc_inode` and `getattr` on the inode table.
use se.Base.{
  ℕ, ◌+◌, ◌%◌, ◌^◌, ◌<◌, ◌≡◌, ◌≢◌, refl, arith, some, ◌==◌, if◌then◌else◌, get_or, All, All-get_or,
}
use se.Disk.{Store, World, inode_num, ask}
use se.Inode.{Inode, ndirect}
use se.Inode.Layout.{IsInode, IsWord}
use se.InodeManager.{put_inode, alloc_inode, getattr, Attr, attr_of}
use se.InodeManager.Table.{
  inode_at, IsFormatted, get_inode-inode_at, put_slot, put_inode-put_slot, inode_at-put_slot,
}
use se.InodeManager.Stores.{fresh_words, fresh_words-IsWord, length-fresh_words}
use se.InodeManager.Writing.{IsSound, inode_at-same, put_slot_frame}

-- The inode that `alloc_inode` makes.
abbrev pub new_inode : ℕ → World → Inode
new_inode type w = record {
  type = type % 2 ^ 16;
  size = 0;
  atime = w.now;
  mtime = w.now;
  ctime = w.now;
  direct = fresh_words w ndirect;
  indirect = get_or w.junk ndirect 0;
}

-- The store as `alloc_inode` has changed it before it writes.
abbrev pub counted : Store → Store
counted s = record s { last_inum = s.last_inum + 1; tick = s.tick + 1 }

pub new_inode-IsInode :
    (type : ℕ) (w : World) → All IsWord w.junk → IsWord w.now → IsInode (new_inode type w)
new_inode-IsInode type w junk now = record {
  type = omega arith;
  size = omega arith;
  atime = now;
  mtime = now;
  ctime = now;
  slots = length-fresh_words w ndirect;
  direct = fresh_words-IsWord w ndirect junk;
  indirect = All-get_or IsWord w.junk ndirect 0 junk (omega arith);
}

alloc_inode_step :
    (type : ℕ) (s t : Store)
    → put_inode (s.last_inum + 1) (new_inode type (s.world s.tick)) (counted s) ≡ some (tt, t)
    → alloc_inode type s ≡ some (s.last_inum + 1, t)
unfolding alloc_inode ask
alloc_inode_step type s t a = ground arith

pub alloc_inode-put_slot :
    (type : ℕ) (s : Store)
    → IsSound s
    → s.last_inum + 1 < inode_num
    → alloc_inode type s
      ≡ some (
        s.last_inum + 1,
        put_slot (counted s) (s.last_inum + 1) (new_inode type (s.world s.tick)),
      )
alloc_inode-put_slot type s sound room = alloc_inode_step type s _ (
    put_inode-put_slot (counted s) (s.last_inum + 1) (new_inode type (s.world s.tick))
      sound.formatted room)

-- On a disk that is in order, a new inode gets the next number, as long as the table has room: it
-- is empty, of the type that was asked for, which is not 0, every other entry of the table is as
-- before, and the disk stays in order.
pub alloc_inode-new_inode :
    (type : ℕ) (s : Store)
    → IsSound s
    → s.last_inum + 1 < inode_num
    → type % 2 ^ 16 ≢ 0
    → (t : Store) × (alloc_inode type s ≡ some (s.last_inum + 1, t))
      × IsSound t
      × ((j : ℕ)
          → inode_at t j ≡ (
              if s.last_inum + 1 == j
              then some (new_inode type (s.world s.tick))
              else inode_at s j))
alloc_inode-new_inode type s sound room typed =
    let inum : ℕ = s.last_inum + 1 in
    let w : World = s.world s.tick in
    let counted_sound : IsSound (counted s) = record {
      formatted = sound.formatted;
      valid = sound.valid;
      words = sound.words;
      clock = sound.clock;
    } in
    let t : Store = put_slot (counted s) inum (new_inode type w) in
    (
      t,
      alloc_inode-put_slot type s sound room,
      (put_slot_frame (counted s) inum (new_inode type w) room counted_sound).0,
      λ j. rw (← inode_at-same s (counted s) j (λ _. refl)) (
          inode_at-put_slot (counted s) inum (new_inode type w) j room
            (new_inode-IsInode type w (sound.words s.tick) (sound.clock s.tick)) typed),
    )

-- `getattr` gives the attributes that the table holds, and leaves them alone where it holds none.
pub getattr-inode_at :
    (inum : ℕ) (a : Attr) (s : Store)
    → IsFormatted s
    → getattr inum a s ≡ some (attr_of (inode_at s inum) a, s)
unfolding getattr
getattr-inode_at inum a s f = ground (arith, get_inode-inode_at s inum f)
