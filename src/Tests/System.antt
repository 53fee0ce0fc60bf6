-- ===== src/Tests/System.antt =====
-- A disk that was formatted in an environment whose clock stands still.
use se.Base.{ℕ, ◌+◌, ◌≤◌, ◌≡◌, ap, Bytes, [], ◌∷◌, true, false, arith, some, none}
use se.Disk.{Store, World}
use se.BlockManager.Count.{free_count}
use se.InodeManager.{t_dir, t_file, boot}
use se.Content.{bytes_written}
use se.Extent.{Status, disk_client}
use se.Extent.State.{view, IsGood}
use se.Extent.Refines.{disk_laws, numbers_left}
use se.Extent.Booting.{IsEnvironment, root_only, boot-IsGood, boot-Steps}
use se.Extent.{server_put, server_create, server_remove}
use se.Extent.Operations.{server_put-put_file}
use se.Extent.Lifetime.{server_create-put_file, server_remove-put_file}
use se.InodeManager.Stores.{blocks_for}
use se.InodeManager.Loops.{rounds}
use se.Spec.{File, put_file}
use se.Spec.Calls.{Call, Steps, Runs, Does, IsAllowed, call-Does}
use se.Yfs.{make, lookup, read, write}
use se.Tester.{tester}
use se.Tester.Passes.{tester_passes}
use se.System.{boot-read-write}
use se.Tests.Disk.{still}
use se.Tests.Format.{name_a, name_b}

abbrev pub still_world : ℕ → World
still_world k = still

pub still-IsEnvironment : IsEnvironment still_world
still-IsEnvironment = record { words = λ k. tt; clock = λ k. omega arith }

boot-IsGood_example :
    (s : Store) × (boot still_world ≡ some s)
    × IsGood s
    × (view s ≡ root_only)
    × (free_count s ≡ 24576)
    × (numbers_left s ≡ 1022)
boot-IsGood_example = boot-IsGood still_world still-IsEnvironment

abbrev pub booted : Store
booted = (boot-IsGood still_world still-IsEnvironment).0

pub boots : boot still_world ≡ some booted
boots = (boot-IsGood still_world still-IsEnvironment).1

pub booted-IsGood : IsGood booted
booted-IsGood = (boot-IsGood still_world still-IsEnvironment).2

pub booted-free : free_count booted ≡ 24576
booted-free = (boot-IsGood still_world still-IsEnvironment).4

pub booted-view : view booted ≡ root_only
booted-view = (boot-IsGood still_world still-IsEnvironment).3

allowed : IsAllowed disk_client disk_laws booted (Call.create t_file)
unfolding disk_laws IsAllowed
allowed = (omega (arith, (boot-IsGood still_world still-IsEnvironment).5), omega arith, omega arith)

makes : Does disk_client disk_laws booted (Call.create t_file)
unfolding disk_laws
makes = call-Does disk_client disk_laws booted (Call.create t_file) booted-IsGood allowed

-- A file is made.
boot-Steps_example :
    IsGood makes.state
    × Steps root_only (Call.create t_file ∷ []) (makes.answer ∷ []) (view makes.state)
unfolding disk_laws
boot-Steps_example =
    boot-Steps still_world booted makes.state (Call.create t_file ∷ []) (makes.answer ∷ [])
      still-IsEnvironment boots (Runs.next allowed makes.runs (Runs.stop makes.state))

boot-read-write_example :
    (t u v w : Store) × (inum : ℕ) × (make disk_client t_file 1 name_a false 0 booted
      ≡ some ((Status.ok, inum), t))
    × (lookup disk_client 1 name_a false 0 t ≡ some ((Status.ok, true, inum), u))
    × (write disk_client inum 2 3 name_b 0 u ≡ some ((Status.ok, bytes_written [] 3 name_b), v))
    × (read disk_client inum 2 3 [] v ≡ some ((Status.ok, name_b), w))
boot-read-write_example =
    boot-read-write still_world booted name_a name_b 3 still-IsEnvironment boots (λ e. ground arith)
      ((λ e. ground arith), tt) (omega arith) (omega arith)

abbrev pub root : File
root = record { type = t_dir; content = [] }

root_there : view booted 1 ≡ some root
root_there = ap (λ v. v 1) booted-view

one_block : blocks_for 1 ≤ free_count booted
unfolding blocks_for rounds
one_block = omega (arith, booted-free)

abbrev pub one_byte : Bytes
one_byte = b'x' ∷ []

server_put-put_file_example :
    (t : Store) × (server_put 1 one_byte booted ≡ some (Status.ok, t))
    × IsGood t
    × (view t ≡ put_file (view booted) 1 (some (record { type = t_dir; content = one_byte })))
    × (free_count booted ≤ free_count t + blocks_for 1)
    × (t.last_inum ≡ booted.last_inum)
server_put-put_file_example =
    server_put-put_file booted 1 root one_byte booted-IsGood root_there (omega arith) one_block

-- The disk after that.
written : Store
written =
    (server_put-put_file booted 1 root one_byte booted-IsGood root_there (omega arith) one_block).0

server_remove-put_file_example :
    (t : Store) × (server_remove 1 written ≡ some (Status.ok, t))
    × IsGood t
    × (view t ≡ put_file (view written) 1 none)
    × (free_count written ≤ free_count t)
    × (t.last_inum ≡ written.last_inum)
unfolding written
server_remove-put_file_example =
    server_remove-put_file written 1 (record { type = t_dir; content = one_byte })
      (server_put-put_file booted 1 root one_byte booted-IsGood root_there (omega arith)
        one_block).2
      (ap (λ v. v 1)
        (server_put-put_file booted 1 root one_byte booted-IsGood root_there (omega arith)
          one_block).3)

server_create-put_file_example :
    (t : Store) × (server_create t_file booted ≡ some ((Status.ok, booted.last_inum + 1), t))
    × IsGood t
    × (view booted (booted.last_inum + 1) ≡ none)
    × (view t
        ≡ put_file
            (view booted)
            (booted.last_inum + 1)
            (some (record { type = t_file; content = [] })))
    × (free_count t ≡ free_count booted)
    × (t.last_inum ≡ booted.last_inum + 1)
server_create-put_file_example =
    server_create-put_file booted t_file booted-IsGood
      (omega (arith, (boot-IsGood still_world still-IsEnvironment).5)) (omega arith) (omega arith)

-- The random numbers of the test program are all 13.
abbrev pub thirteen : ℕ → ℕ
thirteen k = 13

tester_passes_example :
    (t : Store) × (tester disk_client thirteen thirteen thirteen thirteen thirteen [] one_byte
        booted
      ≡ some (100, t))
    × IsGood t
tester_passes_example =
    tester_passes still_world booted thirteen thirteen thirteen thirteen thirteen [] one_byte
      still-IsEnvironment boots (omega arith) (omega arith)
