-- ===== src/Tests/Files.antt =====
-- yfs_client over the client that keeps its files in memory: a root directory with two entries.
use se.Base.{
  ℕ, ◌+◌, ◌^◌, ◌≤◌, ◌<◌, ◌≡◌, refl, Bytes, [], ◌∷◌, ◌++◌, true, false, arith, some, none, length,
  ◌==◌, if◌then◌else◌,
}
use se.InodeManager.{t_dir, t_file}
use se.Extent.{Status}
use se.Spec.{File, put_file}
use se.Directory.{print_entries, filename, digits, print_entry, find, erase, same_name}
use se.Directory.Parse.{parse_entries-print_entries}
use se.Content.{resize, splice, bytes_written}
use se.Content.Write.{length-splice}
use se.Yfs.{read, write, setattr, lookup, make, unlink}
use se.Yfs.Lookup.{IsDir}
use se.Yfs.Create.{make_fresh, lookup-make}
use se.Yfs.Data.{read_past_end, read-write, setattr-resize}
use se.Yfs.Unlink.{unlink-erase}
use se.Tests.Memory.{Memory, IsMemory, memory_client, memory_laws}
use se.Tests.Format.{name_a, name_b, two_entries, two_entries-IsEntry}

abbrev pub root : File
root = record { type = t_dir; content = print_entries two_entries }

abbrev pub some_file : File
some_file = record { type = t_file; content = b'1' ∷ b'2' ∷ b'3' ∷ [] }

abbrev pub name_c : Bytes
name_c = b'c' ∷ []

-- The root, and a file for the first entry.
abbrev pub start : Memory
start = record {
  files = put_file (put_file (λ j. none) 1 (some root)) 2 (some some_file);
  next = 20;
  left = 100;
}

pub start-IsMemory : IsMemory start
start-IsMemory = record { unused = λ j h. ground arith; fits = omega arith }

pub start-IsDir : IsDir memory_client memory_laws start 1 (print_entries two_entries) two_entries
start-IsDir = record {
  file = refl;
  entries = parse_entries-print_entries two_entries two_entries-IsEntry;
}

pub has_a : find name_a two_entries ≡ some 2
unfolding find same_name
has_a = refl

pub has_no_c : find name_c two_entries ≡ none
unfolding find same_name
has_no_c = refl

pub short : length (print_entries two_entries) + length name_c + 22 ≤ 4096
unfolding print_entries print_entry filename digits
short = omega arith

make_fresh_example :
    (t : Memory) × (inum : ℕ) × (make memory_client t_dir 1 name_c false 0 start
      ≡ some ((Status.ok, inum), t))
    × IsMemory t
    × (inum < 2 ^ 31)
    × (start.files inum ≡ none)
    × ((j : ℕ)
        → t.files j ≡ (
            if 1 == j
            then some (record {
              type = t_dir;
              content = print_entries (two_entries ++ record { name = name_c; inum = inum } ∷ []);
            })
            else if inum == j
            then some (record { type = t_dir; content = [] })
            else start.files j))
    × (memory_laws.room start
        ≤ memory_laws.room t
          + memory_laws.cost (length (print_entries two_entries) + length name_c + 22))
make_fresh_example =
    make_fresh memory_client memory_laws start t_dir 1 two_entries name_c false 0 start-IsMemory
      refl two_entries-IsEntry has_no_c (omega arith) (omega arith) (omega arith) short
      (omega arith)

lookup-make_example :
    (t u : Memory) × (inum : ℕ) × (make memory_client t_file 1 name_c true 9 start
      ≡ some ((Status.ok, inum), t))
    × (lookup memory_client 1 name_c false 0 t ≡ some ((Status.ok, true, inum), u))
lookup-make_example =
    lookup-make memory_client memory_laws start t_file 1 two_entries name_c true false 9 0
      start-IsMemory refl two_entries-IsEntry has_no_c (omega arith) (omega arith) (omega arith)
      short (omega arith) (λ e. ground arith) ((λ e. ground arith), tt)

read_past_end_example : read memory_client 2 10 4 [] start ≡ none
read_past_end_example =
    read_past_end memory_client memory_laws start 2 10 4 [] some_file.content start-IsMemory refl
      (omega arith)

pub short_file : length (splice some_file.content 5 name_b) ≤ 4096
short_file = omega (arith, length-splice some_file.content 5 name_b)

read-write_example :
    (t u : Memory) × (write memory_client 2 2 5 name_b 0 start
      ≡ some ((Status.ok, bytes_written some_file.content 5 name_b), t))
    × (read memory_client 2 2 5 [] t ≡ some ((Status.ok, name_b), u))
    × (u.files
        ≡ put_file start.files 2
            (some (record { type = t_file; content = splice some_file.content 5 name_b })))
read-write_example =
    read-write memory_client memory_laws start 2 5 0 name_b [] some_file.content start-IsMemory refl
      short_file (omega arith)

setattr-resize_example :
    (t : Memory) × (setattr memory_client 2 1 start ≡ some (Status.ok, t))
    × IsMemory t
    × ((j : ℕ)
        → t.files j ≡ (
            if 2 == j
            then some (record some_file { content = resize some_file.content 3 1 })
            else start.files j))
setattr-resize_example =
    setattr-resize memory_client memory_laws start 2 1 some_file start-IsMemory refl (omega arith)
      (omega arith)

short_erased : length (print_entries (erase name_a two_entries)) ≤ 4096
unfolding print_entries print_entry filename digits erase same_name
short_erased = omega arith

unlink-erase_example :
    (t : Memory) × (unlink memory_client 1 name_a false 0 start ≡ some (Status.ok, t))
    × IsMemory t
    × ((j : ℕ)
        → t.files j ≡ (
            if 1 == j
            then some (record { type = t_dir; content = print_entries (erase name_a two_entries) })
            else if 2 == j
            then none
            else start.files j))
unlink-erase_example =
    unlink-erase memory_client memory_laws start 1 two_entries name_a false 0 2 some_file
      start-IsMemory refl two_entries-IsEntry has_a refl (λ e. ground arith) short_erased
      (omega arith)
