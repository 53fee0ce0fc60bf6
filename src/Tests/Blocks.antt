-- ===== src/Tests/Blocks.antt =====
-- The theorems of the disk applied to the new disk with one file.
use se.Base.{
  true, ℕ, suc, ◌*◌, ◌≤◌, ◌≡◌, refl, ap, ◌∙◌, Bytes, ◌∷◌, arith, some, none, replicate,
  length-replicate, has_bit, with_bit, ◌==◌, if◌then◌else◌, take,
}
use se.Disk.{Store, empty_disk, read_block, write_block}
use se.BlockManager.Growth.{put_block, marked-put_block, blocks-put_block}
use se.InodeManager.Contents.{file_bytes, load_data-file_bytes}
use se.InodeManager.Owned.{HoldsFile-IsNew}
use se.InodeManager.Loops.{rounds, Taken}
use se.InodeManager.{copy_block}
use se.BlockManager.{format_disk, bpb, alloc_from, take_bit, find_clear, alloc_block, free_block}
use se.BlockManager.Bitmap.{marked, mark, unmark, set_bit, marked-mark}
use se.BlockManager.Alloc.{Allocates, alloc_block-Allocates}
use se.BlockManager.Free.{free_block-alloc_block}
use se.BlockManager.Count.{free_count, IsData}
use se.Inode.{Inode, load_inode, store_inode}
use se.Inode.Layout.{load_inode-store_inode}
use se.InodeManager.{t_file, write_file, read_file, remove_file, load_data}
use se.InodeManager.Table.{inode_at}
use se.InodeManager.Stored.{HoldsFile}
use se.InodeManager.Data.{file_blocks}
use se.BlockManager.Shrink.{Frees}
use se.InodeManager.Writing.{IsSound, Writes, write_file-Writes}
use se.InodeManager.Reading.{read_file-write_file}
use se.InodeManager.Removing.{remove_file-inode_at}
use se.InodeManager.Limits.{missing_inode_faults, write_file_too_large}
use se.Tests.Disk.{
  fresh_disk, fresh_disk-IsValid, fresh_disk-IsSound, fresh_disk-empty, first_clear, one_inode,
  one_file, one_file-IsSound, one_file-at, one_inode-IsInode, Others, one_inode-IsOwned, hello,
  hello-room,
}

read_file-write_file_example :
    (t u : Store) × (bytes : Bytes) × (write_file 1 hello 5 one_file ≡ some (tt, t))
    × (read_file 1 t ≡ some ((bytes, 5), u))
    × (take 5 bytes ≡ hello)
read_file-write_file_example =
    read_file-write_file Others 1 one_inode hello one_file one_file-IsSound one_file-at
      one_inode-IsInode one_inode-IsOwned (omega arith) hello-room

write_file-Writes_example : Writes Others 1 one_inode hello one_file
write_file-Writes_example =
    write_file-Writes Others 1 one_inode hello one_file one_file-IsSound one_file-at
      one_inode-IsInode one_inode-IsOwned (omega arith) hello-room

alloc_block-Allocates_example : Allocates fresh_disk (2 * bpb) (alloc_block fresh_disk)
alloc_block-Allocates_example = alloc_block-Allocates fresh_disk

-- The inode that points at the block of `hello`, and the block.
abbrev hello_inode : Inode
hello_inode = record {
  type = t_file;
  size = 5;
  atime = 0;
  mtime = 0;
  ctime = 0;
  direct = 8192 ∷ replicate 99 0;
  indirect = 0;
}

abbrev hello_disk : Store
hello_disk = put_block (mark fresh_disk 8192) 8192 (copy_block hello 0)

hello_disk-Taken : Taken fresh_disk hello_disk 8192 (copy_block hello 0)
hello_disk-Taken = record {
  inside = (omega arith, omega arith);
  fresh = first_clear;
  used =
      marked-put_block (mark fresh_disk 8192) 8192 (copy_block hello 0) 8192 (omega arith)
        (omega arith, omega arith)
      ∙ (marked-mark fresh_disk 8192 8192 fresh_disk-IsValid (omega arith, omega arith) ∙ refl);
  content = blocks-put_block (mark fresh_disk 8192) 8192 (copy_block hello 0) 8192 ∙ refl;
}

hello_disk-HoldsFile : HoldsFile fresh_disk hello_disk hello hello_inode 5
unfolding rounds
hello_disk-HoldsFile = record {
  slots = ap suc (length-replicate {A = ℕ} 99 0);
  direct = (hello_disk-Taken, tt);
  indirect = λ e. ground arith;
}

alloc_first : alloc_block fresh_disk ≡ some (8192, mark fresh_disk 8192)
unfolding alloc_block alloc_from take_bit find_clear format_disk empty_disk read_block write_block
    mark has_bit with_bit set_bit
alloc_first = refl

free_block-alloc_block_example :
    (free_block 8192 (mark fresh_disk 8192) ≡ some (tt, unmark (mark fresh_disk 8192) 8192))
    × ((j : ℕ) → marked (unmark (mark fresh_disk 8192) 8192) j ≡ marked fresh_disk j)
free_block-alloc_block_example =
    free_block-alloc_block fresh_disk 8192 (mark fresh_disk 8192) fresh_disk-IsValid alloc_first
      (omega arith)

load_inode-store_inode_example : load_inode (store_inode one_inode (replicate 512 0)) ≡ one_inode
load_inode-store_inode_example =
    load_inode-store_inode one_inode (replicate 512 0) one_inode-IsInode

missing_inode_faults_example :
    (read_file 3 fresh_disk ≡ none)
    × (write_file 3 hello 5 fresh_disk ≡ none)
    × (remove_file 3 fresh_disk ≡ none)
missing_inode_faults_example =
    missing_inode_faults fresh_disk 3 hello 5 fresh_disk-IsSound.formatted (fresh_disk-empty 3)

abbrev large : Bytes
large = replicate 116737 0

write_file_too_large_example : write_file 1 large 116737 one_file ≡ none
write_file_too_large_example =
    write_file_too_large one_file 1 one_inode large 116737 one_file-IsSound.formatted one_file-at
      (omega arith) (omega arith)

remove_file-inode_at_example :
    (t : Store) × (remove_file 1 one_file ≡ some (tt, t))
    × IsSound t
    × ((j : ℕ) → inode_at t j ≡ (if 1 == j then none else inode_at one_file j))
    × ((j : ℕ)
        → IsData j
        → Others j
        → marked one_file j ≡ true
        → (marked t j ≡ true) × (t.blocks j ≡ one_file.blocks j))
    × Frees (file_blocks one_file.blocks one_inode) one_file t
    × (free_count one_file ≤ free_count t)
    × (t.last_inum ≡ one_file.last_inum)
remove_file-inode_at_example =
    remove_file-inode_at Others 1 one_inode one_file one_file-IsSound one_file-at one_inode-IsOwned

load_data-file_bytes_example :
    load_data hello_inode hello_disk ≡ some (file_bytes hello_disk.blocks hello_inode, hello_disk)
load_data-file_bytes_example =
    load_data-file_bytes hello_inode hello_disk (omega arith) refl (λ j m.
      (HoldsFile-IsNew fresh_disk hello_disk hello hello_inode j hello_disk-HoldsFile m).inside.1)
