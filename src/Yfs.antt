-- ===== src/Yfs.antt =====
-- class yfs_client (yfs_client.cc) over an extent client. What C++ leaves in a variable that a
-- call does not set is an argument: `exist`, `ino_out`, `bytes`.
pub mod Lookup
pub mod Create
pub mod Data
pub mod Unlink
use se.Base.{
  ℕ, Bytes, List, [], ◌++◌, Option, none, some, Bool, true, false, M, pure, fault, ◌>>=◌, ◌&&◌,
  ◌==◌, if◌then◌else◌, take, not,
}
use se.InodeManager.{Attr, t_dir, t_file}
use se.Extent.{Status, is_ok, ExtentClient}
use se.Directory.{
  Dirent, Outcome, finished, undefined, out_of_fuel, print_entry, print_entries, parse_entries,
  find, erase,
}
use se.Content.{substr, resize, splice}
use se.Content

-- yfs_client::fileinfo and yfs_client::dirinfo
pub record FileInfo : Type 0 where
  pub size : ℕ
  pub atime : ℕ
  pub mtime : ℕ
  pub ctime : ℕ

pub record DirInfo : Type 0 where
  pub atime : ℕ
  pub mtime : ℕ
  pub ctime : ℕ

abbrev pub file_info : Attr → FileInfo
file_info a = record { size = a.size; atime = a.atime; mtime = a.mtime; ctime = a.ctime }

abbrev pub dir_info : Attr → DirInfo
dir_info a = record { atime = a.atime; mtime = a.mtime; ctime = a.ctime }

-- The bound of the loop in `readdir` is never met; an undefined `atoi` is a fault.
abbrev pub entries_of {ℓ} : {A : Type ℓ} → A → (List Dirent → A) → Outcome (List Dirent) → A
entries_of stop go (finished es) = go es
entries_of stop go undefined = stop
entries_of stop go out_of_fuel = stop

-- `inum` of the entry that `lookup` found, or what was there.
abbrev pub found_inum : Option ℕ → ℕ → Bool × ℕ
found_inum none ino_out = (false, ino_out)
found_inum (some inum) ino_out = (true, inum)

module _ (ec : ExtentClient) where
  open ec use {State}

  -- The constructor with two arguments: the root directory is made empty.
  unfoldable pub init_root : M State (Unit {0})
  init_root = do _ ← ec.put 1 []; pure tt

  unfoldable pub has_type : ℕ → ℕ → M State Bool
  has_type type inum = do (r, a) ← ec.getattr inum; pure (if is_ok r then a.type == type else false)

  unfoldable pub isfile : ℕ → M State Bool
  unfolding has_type
  isfile inum = has_type t_file inum

  unfoldable pub isdir : ℕ → M State Bool
  unfolding has_type
  isdir inum = has_type t_dir inum

  -- `t_symlink` is extent_protocol::T_SYMLINK, which extent_protocol.h does not declare.
  unfoldable pub issymlink : ℕ → ℕ → M State Bool
  unfolding has_type
  issymlink t_symlink inum = has_type t_symlink inum

  unfoldable pub getfile : ℕ → FileInfo → M State (Status × FileInfo)
  getfile inum fin = do
    (r, a) ← ec.getattr inum
    pure (if is_ok r then (Status.ok, file_info a) else (Status.ioerr, fin))

  unfoldable pub getdir : ℕ → DirInfo → M State (Status × DirInfo)
  getdir inum din = do
    (r, a) ← ec.getattr inum
    pure (if is_ok r then (Status.ok, dir_info a) else (Status.ioerr, din))

  unfoldable pub setattr : ℕ → ℕ → M State Status
  setattr ino size = do
    (r, a) ← ec.getattr ino
    if is_ok r && not (a.size == size)
        then (do
          (q, buf) ← ec.get ino
          if is_ok q then ec.put ino (resize buf a.size size) else pure q)
        else pure r

  unfoldable pub readdir : ℕ → M State (Status × List Dirent)
  readdir dir = do
    is_dir ← isdir dir
    if is_dir
        then (do
          (r, text) ← ec.get dir
          if is_ok r
              then entries_of fault (λ es. pure (r, es)) (parse_entries text)
              else pure (r, []))
        else pure (Status.ioerr, [])

  unfoldable pub lookup : ℕ → Bytes → Bool → ℕ → M State (Status × Bool × ℕ)
  lookup parent name found ino_out = do
    is_dir ← isdir parent
    if is_dir
        then (do
          (_, list) ← readdir parent
          let (hit, inum) = found_inum (find name list) ino_out
          pure (Status.ok, hit, inum))
        else pure (Status.ioerr, found, ino_out)

  -- The end of `create`, `mkdir` and `symlink`: the parent gets the new entry.
  unfoldable pub add_to_parent : ℕ → Bytes → ℕ → M State Status
  add_to_parent parent name inum = do
    (r, buf) ← ec.get parent
    if is_ok r then ec.put parent (buf ++ print_entry name inum) else pure r

  -- `create` and `mkdir` differ in the type alone; both ignore `mode`.
  unfoldable pub make : ℕ → ℕ → Bytes → Bool → ℕ → M State (Status × ℕ)
  make type parent name exist ino_out = do
    (_, taken, old) ← lookup parent name exist ino_out
    if taken then pure (Status.exist, old) else (do
      (r, inum) ← ec.create type
      if is_ok r then (do s ← add_to_parent parent name inum; pure (s, inum)) else pure (r, inum))

  unfoldable pub create : ℕ → Bytes → Bool → ℕ → M State (Status × ℕ)
  unfolding make
  create = make t_file

  unfoldable pub mkdir : ℕ → Bytes → Bool → ℕ → M State (Status × ℕ)
  unfolding make
  mkdir = make t_dir

  -- `substr` throws if the offset is behind the end.
  unfoldable pub read : ℕ → ℕ → ℕ → Bytes → M State (Status × Bytes)
  read ino size off bytes = do
    is_file ← isfile ino
    if is_file
        then (do
          (r, buf) ← ec.get ino
          if is_ok r
              then elim (substr buf off size) [ none ↦ fault | some found ↦ pure (r, found) ]
              else pure (r, bytes))
        else pure (Status.ioerr, bytes)

  unfoldable pub write : ℕ → ℕ → ℕ → Bytes → ℕ → M State (Status × ℕ)
  write ino size off source bytes_written = do
    (r, buf) ← ec.get ino
    if is_ok r
        then (do
          s ← ec.put ino (splice buf off (take size source))
          pure (s, Content.bytes_written buf off (take size source)))
        else pure (r, bytes_written)

  -- The result of the last `put` is not looked at.
  unfoldable pub unlink : ℕ → Bytes → Bool → ℕ → M State Status
  unlink parent name exist ino_out = do
    (_, there, inum) ← lookup parent name exist ino_out
    if there
        then (do
          r ← ec.remove inum
          if is_ok r
              then (do
                (_, list) ← readdir parent
                _ ← ec.put parent (print_entries (erase name list))
                pure r)
              else pure r)
        else pure Status.noent

  unfoldable pub symlink : ℕ → ℕ → Bytes → Bytes → ℕ → M State (Status × ℕ)
  symlink t_symlink parent link name ino_out = do
    (r, inum) ← ec.create t_symlink
    if is_ok r
        then (do
          q ← ec.put inum link
          if is_ok q
              then (do (_, buf1) ← ec.get inum; s ← add_to_parent parent name inum; pure (s, inum))
              else pure (q, inum))
        else pure (r, inum)

  unfoldable pub readlink : ℕ → ℕ → Bytes → M State (Status × Bytes)
  readlink t_symlink sym old = do
    is_link ← issymlink t_symlink sym
    if is_link then ec.get sym else pure (Status.ioerr, old)
