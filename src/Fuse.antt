-- ===== src/Fuse.antt =====
-- The request handlers of fuse.cc. A handler answers with one reply and may change the file system.
pub mod Attributes
pub mod Requests
use Prim.Native.Nat.{bit_and, bit_or}
use se.Base.{
  ℕ, ◌+◌, ◌-◌, Bytes, List, [], ◌∷◌, ◌++◌, Bool, false, M, pure, ◌>>=◌, ltb, ◌==◌, if◌then◌else◌,
  length, take, drop, min,
}
use se.InodeManager.{t_dir, t_file}
use se.Extent.{Status, is_ok, ExtentClient}
use se.Directory.{Dirent}
use se.Yfs.{FileInfo, DirInfo}
use se.Yfs

-- errno values; `success` is the 0 of `fuse_reply_err(req, 0)`.
pub data Errno : Type 0 where
  success enoent enosys eexist enotdir enotempty : Errno

-- The fields of struct stat that `getattr` sets; `bzero` clears the rest.
pub record Stat : Type 0 where
  pub ino : ℕ
  pub mode : ℕ
  pub nlink : ℕ
  pub atime : ℕ
  pub mtime : ℕ
  pub ctime : ℕ
  pub size : ℕ

-- struct fuse_entry_param, less the timeouts and the generation, which are always 0.
pub record Entry : Type 0 where
  pub ino : ℕ
  pub attr : Stat

pub data Reply : Type 0 where
  err : Errno → Reply
  attr : Stat → Reply
  buf : Bytes → Reply
  wrote : ℕ → Reply
  entry created : Entry → Reply
  opened : Reply
  statfs : ℕ → ℕ → Reply

abbrev zero_stat : ℕ → Stat
zero_stat inum = record {
  ino = inum;
  mode = 0;
  nlink = 0;
  atime = 0;
  mtime = 0;
  ctime = 0;
  size = 0;
}

-- The three kinds of node: S_IFREG | 0666, S_IFDIR | 0777 and S_IFLNK | 0777.
abbrev file_stat : ℕ → ℕ → FileInfo → Stat
file_stat inum mode info = record {
  ino = inum;
  mode = mode;
  nlink = 1;
  atime = info.atime;
  mtime = info.mtime;
  ctime = info.ctime;
  size = info.size;
}

abbrev dir_stat : ℕ → DirInfo → Stat
dir_stat inum info = record {
  ino = inum;
  mode = bit_or 0o040000 0o777;
  nlink = 2;
  atime = info.atime;
  mtime = info.mtime;
  ctime = info.ctime;
  size = 0;
}

abbrev no_file : FileInfo
no_file = record { size = 0; atime = 0; mtime = 0; ctime = 0 }

abbrev no_dir : DirInfo
no_dir = record { atime = 0; mtime = 0; ctime = 0 }

-- The reply of `create`, `mknod` and `mkdir`.
unfoldable pub entry_reply : (Entry → Reply) → Status → Entry → Reply
entry_reply good Status.ok e = good e
entry_reply good Status.exist e = err Errno.eexist
entry_reply good _ e = err Errno.enoent

unfoldable pub unlink_reply : Status → Reply
unlink_reply Status.ok = err Errno.success
unlink_reply Status.noent = err Errno.enoent
unlink_reply _ = err Errno.enotempty

-- struct dirbuf. libfuse gives the size of an entry and writes it.
pub record DirBuf : Type 0 where
  pub p : Bytes
  pub size : ℕ

-- `reply_buf_limited`: the part of the buffer that the kernel asked for.
unfoldable pub reply_buf_limited : Bytes → ℕ → ℕ → ℕ → Reply
reply_buf_limited p bufsize off maxsize =
    if ltb off bufsize then buf (take (min (bufsize - off) maxsize) (drop off p)) else buf []

module _ (dirent_size : ℕ → ℕ) (add_dirent : Bytes → ℕ → ℕ → Bytes) where
  unfoldable pub dirbuf_add : DirBuf → Bytes → ℕ → DirBuf
  dirbuf_add b name ino =
      let size = b.size + dirent_size (length name) in
      record { p = take b.size b.p ++ add_dirent name ino size; size = size }

  unfoldable pub add_entries : DirBuf → List Dirent → DirBuf
  unfolding dirbuf_add
  add_entries b [] = b
  add_entries b (e ∷ es) = add_entries (dirbuf_add b e.name e.inum) es

module _ (ec : ExtentClient) where
  open ec use {State}

  -- The first `isfile` is an argument of `printf`.
  unfoldable pub getattr : ℕ → M State (Status × Stat)
  getattr inum = do
    _ ← Yfs.isfile ec inum
    is_file ← Yfs.isfile ec inum
    if is_file
        then (do
          (ret, info) ← Yfs.getfile ec inum no_file
          pure (
            ret,
            if is_ok ret then file_stat inum (bit_or 0o100000 0o666) info else zero_stat inum,
          ))
        else (do
          is_dir ← Yfs.isdir ec inum
          if is_dir
              then (do
                (ret, info) ← Yfs.getdir ec inum no_dir
                pure (ret, if is_ok ret then dir_stat inum info else zero_stat inum))
              else (do
                (ret, info) ← Yfs.getfile ec inum no_file
                pure (
                  ret,
                  if is_ok ret then file_stat inum (bit_or 0o120000 0o777) info else zero_stat inum,
                )))

  unfoldable pub fuseserver_getattr : ℕ → M State Reply
  fuseserver_getattr ino = do
    (ret, st) ← getattr ino
    pure (if is_ok ret then attr st else err Errno.enoent)

  -- `mask` is FUSE_SET_ATTR_SIZE | FUSE_SET_ATTR_ATIME | FUSE_SET_ATTR_MTIME, of libfuse.
  unfoldable pub fuseserver_setattr : ℕ → ℕ → ℕ → ℕ → M State Reply
  fuseserver_setattr mask ino st_size to_set =
      if bit_and mask to_set == 0 then pure (err Errno.enosys) else do
        _ ← (if bit_and to_set mask == 0 then pure Status.ok else Yfs.setattr ec ino st_size)
        (_, st) ← getattr ino
        pure (attr st)

  unfoldable pub fuseserver_read : ℕ → ℕ → ℕ → M State Reply
  fuseserver_read ino size off = do
    (r, bytes) ← Yfs.read ec ino size off []
    pure (if is_ok r then buf bytes else err Errno.enoent)

  -- `size` is handed over twice: as the length, and as the place for the result.
  unfoldable pub fuseserver_write : ℕ → Bytes → ℕ → ℕ → M State Reply
  fuseserver_write ino source size off = do
    (r, written) ← Yfs.write ec ino size off source size
    pure (if is_ok r then wrote written else err Errno.enoent)

  -- `inum` and `e` are not set before the call.
  unfoldable pub createhelper : ℕ → Bytes → Bool → ℕ → Entry → ℕ → M State (Status × Entry)
  createhelper parent name exist inum e type = do
    (ret, new) ←
        (if type == t_file
          then Yfs.create ec parent name exist inum
          else Yfs.mkdir ec parent name exist inum)
    if is_ok ret
        then (do (q, st) ← getattr new; pure (q, record { ino = new; attr = st }))
        else pure (ret, e)

  unfoldable pub fuseserver_create : ℕ → Bytes → Bool → ℕ → Entry → M State Reply
  unfolding entry_reply
  fuseserver_create parent name exist inum e = do
    (ret, e') ← createhelper parent name exist inum e t_file
    pure (entry_reply created ret e')

  unfoldable pub fuseserver_mknod : ℕ → Bytes → Bool → ℕ → Entry → M State Reply
  unfolding entry_reply
  fuseserver_mknod parent name exist inum e = do
    (ret, e') ← createhelper parent name exist inum e t_file
    pure (entry_reply entry ret e')

  unfoldable pub fuseserver_mkdir : ℕ → Bytes → Bool → ℕ → Entry → M State Reply
  unfolding entry_reply
  fuseserver_mkdir parent name exist inum e = do
    (ret, e') ← createhelper parent name exist inum e t_dir
    pure (entry_reply entry ret e')

  unfoldable pub fuseserver_lookup : ℕ → Bytes → ℕ → M State Reply
  fuseserver_lookup parent name inum = do
    (_, found, ino) ← Yfs.lookup ec parent name false inum
    if found
        then (do (_, st) ← getattr ino; pure (entry (record { ino = ino; attr = st })))
        else pure (err Errno.enoent)

  unfoldable pub fuseserver_readdir : (ℕ → ℕ) → (Bytes → ℕ → ℕ → Bytes) → ℕ → ℕ → ℕ → M State Reply
  unfolding add_entries
  fuseserver_readdir dirent_size add_dirent ino size off = do
    is_dir ← Yfs.isdir ec ino
    if is_dir
        then (do
          (_, entries) ← Yfs.readdir ec ino
          let b = add_entries dirent_size add_dirent (record { p = []; size = 0 }) entries
          pure (reply_buf_limited b.p b.size off size))
        else pure (err Errno.enotdir)

  unfoldable pub fuseserver_open : ℕ → M State Reply
  fuseserver_open ino = pure opened

  unfoldable pub fuseserver_unlink : ℕ → Bytes → Bool → ℕ → M State Reply
  unfolding unlink_reply
  fuseserver_unlink parent name exist inum = do
    r ← Yfs.unlink ec parent name exist inum
    pure (unlink_reply r)

  unfoldable pub fuseserver_symlink : ℕ → Bytes → ℕ → Bytes → ℕ → M State Reply
  fuseserver_symlink t_symlink link parent name inum = do
    (ret, new) ← Yfs.symlink ec t_symlink parent link name inum
    (_, st) ← getattr new
    pure (if is_ok ret then entry (record { ino = new; attr = st }) else err Errno.enoent)

  unfoldable pub fuseserver_readlink : ℕ → ℕ → M State Reply
  fuseserver_readlink t_symlink ino = do
    (r, bytes) ← Yfs.readlink ec t_symlink ino []
    pure (if is_ok r then buf bytes else err Errno.enoent)

  -- f_namemax and f_bsize
  unfoldable pub fuseserver_statfs : M State Reply
  fuseserver_statfs = pure (statfs 255 512)
