-- ===== src/Extent.antt =====
-- extent_protocol.h, extent_server.cc and extent_client.cc. The client keeps a pointer to a server
-- in the same process and calls it directly.
pub mod RoundTrip
pub mod State
pub mod Changing
pub mod Operations
pub mod Lifetime
pub mod Refines
pub mod Booting
use se.Base.{
  ℕ, ◌%◌, ◌^◌, Bytes, [], Bool, true, false, M, pure, ◌>>=◌, ◌>>◌, ◌==◌, if◌then◌else◌, take,
  length, ltb, guard,
}
use se.Disk.{Store}
use se.InodeManager.{Attr, alloc_inode, read_file, write_file, getattr, remove_file}

-- extent_protocol::xxstatus, with the EXIST that yfs_client::xxstatus has behind the same four.
pub data Status : Type 0 where
  ok rpcerr noent ioerr exist : Status

-- `r == extent_protocol::OK`
abbrev pub is_ok : Status → Bool
is_ok Status.ok = true
is_ok _ = false

-- What yfs_client calls: class extent_client.
pub record ExtentClient : Type 1 where
  pub State : Type 0
  pub create : ℕ → M State (Status × ℕ)
  pub get : ℕ → M State (Status × Bytes)
  pub getattr : ℕ → M State (Status × Attr)
  pub put : ℕ → Bytes → M State Status
  pub remove : ℕ → M State Status

-- `id &= 0x7fffffff`
abbrev pub low_id : ℕ → ℕ
low_id id = id % 2 ^ 31

abbrev pub zero_attr : Attr
zero_attr = record { type = 0; atime = 0; mtime = 0; ctime = 0; size = 0 }

unfoldable pub server_create : ℕ → M Store (Status × ℕ)
server_create type = do id ← alloc_inode type; pure (Status.ok, id)

-- `int size = buf.size()`, which wraps.
unfoldable pub server_put : ℕ → Bytes → M Store Status
server_put id buf = do write_file (low_id id) buf (length buf % 2 ^ 32); pure Status.ok

-- A negative size is too long for `assign`, which throws.
unfoldable pub server_get : ℕ → M Store (Status × Bytes)
server_get id = do
  (cbuf, size) ← read_file (low_id id)
  guard (ltb size (2 ^ 31))
  pure (Status.ok, if size == 0 then [] else take size cbuf)

unfoldable pub server_getattr : ℕ → M Store (Status × Attr)
server_getattr id = do a ← getattr (low_id id) zero_attr; pure (Status.ok, a)

unfoldable pub server_remove : ℕ → M Store Status
server_remove id = do remove_file (low_id id); pure Status.ok

-- class extent_client over the server's memory.
abbrev pub disk_client : ExtentClient
disk_client = record {
  State = Store;
  create = λ type. server_create type;
  get = λ eid. server_get eid;
  getattr = λ eid. server_getattr eid;
  put = λ eid buf. server_put eid buf;
  remove = λ eid. server_remove eid;
}
