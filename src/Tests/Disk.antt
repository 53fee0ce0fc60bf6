-- ===== src/Tests/Disk.antt =====
-- A freshly formatted disk with one file (inode_manager.cc, extent_server.cc).
use se.Base.{
  ℕ, ◌≤◌, ◌<◌, ◌≡◌, refl, ◌∙◌, Bytes, [], ◌∷◌, false, arith, some, none, length, replicate, has_bit,
  length-replicate, get_or, get_or-replicate,
}
use se.Disk.{Store, World, empty_disk}
use se.BlockManager.{format_disk}
use se.BlockManager.Bitmap.{IsValid, marked}
use se.BlockManager.Count.{free_count, free_count-mark}
use se.Inode.{Inode, ndirect, from_bytes, load_inode}
use se.Inode.Layout.{IsInode}
use se.InodeManager.{t_file}
use se.InodeManager.Loops.{rounds}
use se.InodeManager.Table.{inode_at, put_slot, inode_at-put_slot}
use se.InodeManager.Data.{IsOwned}
use se.InodeManager.Stores.{blocks_for, length-fresh_words}
use se.InodeManager.Writing.{IsSound, put_slot_frame}
use se.InodeManager.Same.{SameData-put_slot}
use se.InodeManager.Creating.{new_inode, counted, new_inode-IsInode}

-- A clock that stands still, and memory that is clear.
abbrev pub still : World
still = record { now = 1600000000; junk = []; beyond = [] }

abbrev pub fresh_disk : Store
fresh_disk = format_disk (λ k. still)

null_byte : (i : ℕ) → get_or (replicate 512 0) i 0 < 256
null_byte i = omega (arith, get_or-replicate {A = ℕ} 512 0 i)

pub fresh_disk-IsValid : IsValid fresh_disk
unfolding format_disk empty_disk
fresh_disk-IsValid j lo hi = record {
  size = length-replicate {A = ℕ} 512 0;
  byte = λ i. null_byte i;
}

pub fresh_disk-IsSound : IsSound fresh_disk
unfolding format_disk
fresh_disk-IsSound = record {
  formatted = refl;
  valid = fresh_disk-IsValid;
  words = λ k. tt;
  clock = λ k. omega arith;
}

empty_inode : (load_inode (replicate 512 0)).type ≡ 0
unfolding load_inode from_bytes
empty_inode = refl

-- The table of a new disk is empty.
pub fresh_disk-empty : (j : ℕ) → inode_at fresh_disk j ≡ none
unfolding inode_at format_disk empty_disk
fresh_disk-empty j = ground (arith, empty_inode)

-- After `alloc_inode` of a file: the disk and the inode.
abbrev pub one_inode : Inode
one_inode = new_inode t_file still

abbrev pub one_file : Store
one_file = put_slot (counted fresh_disk) 1 one_inode

counted-IsSound : IsSound (counted fresh_disk)
counted-IsSound = record {
  formatted = fresh_disk-IsSound.formatted;
  valid = fresh_disk-IsSound.valid;
  words = fresh_disk-IsSound.words;
  clock = fresh_disk-IsSound.clock;
}

pub one_file-IsSound : IsSound one_file
one_file-IsSound = (put_slot_frame (counted fresh_disk) 1 one_inode (omega arith) counted-IsSound).0

pub one_inode-IsInode : IsInode one_inode
one_inode-IsInode = new_inode-IsInode t_file still tt (omega arith)

pub one_file-at : inode_at one_file 1 ≡ some one_inode
one_file-at =
    inode_at-put_slot (counted fresh_disk) 1 one_inode 1 (omega arith) one_inode-IsInode
      (λ e. ground arith)

-- The blocks of other files. There are none yet.
abbrev pub Others : ℕ → Type 0
Others j = 9000 ≤ j

pub one_inode-IsOwned : IsOwned Others one_file one_inode
unfolding rounds
one_inode-IsOwned = record {
  fits = omega arith;
  slots = length-fresh_words still ndirect;
  direct = tt;
  indirect = λ e. ground arith;
  words = λ e. ground arith;
}

pub first_clear : marked fresh_disk 8192 ≡ false
unfolding marked format_disk empty_disk has_bit
first_clear = refl

same_clear : marked (counted fresh_disk) 8192 ≡ false
unfolding marked format_disk empty_disk has_bit
same_clear = refl

pub one_file-room : 1 ≤ free_count one_file
one_file-room =
    let clear : marked one_file 8192 ≡ false =
      (SameData-put_slot (counted fresh_disk) 1 one_inode (omega arith) 8192
        (omega arith, omega arith)).0
      ∙ same_clear in
    omega
      (arith, free_count-mark one_file 8192 one_file-IsSound.valid (omega arith, omega arith) clear)

abbrev pub hello : Bytes
hello = b'h' ∷ b'e' ∷ b'l' ∷ b'l' ∷ b'o' ∷ []

pub hello-room : blocks_for (length hello) ≤ free_count one_file
unfolding blocks_for rounds
hello-room = one_file-room
