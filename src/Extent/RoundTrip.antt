-- ===== src/Extent/RoundTrip.antt =====
-- The promise of the extent server to yfs_client: a string that was put is what get returns.
use se.Base.{
  ℕ, ◌+◌, ◌%◌, ◌^◌, ◌≤◌, ◌<◌, ◌≡◌, ◌≢◌, refl, ap, ◌∙◌, Bytes, [], arith, some, none, length, take,
  ◌∷◌,
}
use se.Disk.{Store, inode_num}
use se.BlockManager.Count.{free_count}
use se.Inode.{Inode}
use se.Inode.Layout.{IsInode}
use se.InodeManager.{Attr, alloc_inode, read_file, write_file, getattr, attr_of}
use se.InodeManager.Table.{inode_at, IsFormatted}
use se.InodeManager.Data.{max_size, IsOwned}
use se.InodeManager.Stores.{blocks_for}
use se.InodeManager.Writing.{IsSound}
use se.InodeManager.Reading.{read_file-write_file}
use se.InodeManager.Creating.{new_inode, alloc_inode-new_inode, getattr-inode_at}
use se.Extent.{Status, low_id, zero_attr, server_create, server_put, server_get, server_getattr}

pub server_put_step :
    (id : ℕ) (buf : Bytes) (s : Store) {t : Store}
    → length buf ≤ max_size
    → write_file (low_id id) buf (length buf) s ≡ some (tt, t)
    → server_put id buf s ≡ some (Status.ok, t)
unfolding server_put
server_put_step id buf s small e =
    let whole : length buf % 2 ^ 32 ≡ length buf = omega arith in ground arith

pub server_get_step :
    (id : ℕ) (buf : Bytes) (t : Store) {u : Store} {bytes : Bytes}
    → read_file (low_id id) t ≡ some ((bytes, length buf), u)
    → length buf ≤ max_size
    → take (length buf) bytes ≡ buf
    → server_get id t ≡ some ((Status.ok, buf), u)
unfolding server_get
server_get_step id [] t e small same = ground arith
server_get_step id (b ∷ buf) t e small same = ground arith

-- After `put` of a string, `get` of the same id returns this string and OK. The file exists, its
-- blocks are its own, the string has at most MAXFILE blocks and so many data blocks are free.
pub server_get-server_put :
    (P : ℕ → Type 0) (id : ℕ) (old : Inode) (buf : Bytes) (s : Store)
    → IsSound s
    → inode_at s (low_id id) ≡ some old
    → IsInode old
    → IsOwned P s old
    → length buf ≤ max_size
    → blocks_for (length buf) ≤ free_count s
    → (t u : Store) × (server_put id buf s ≡ some (Status.ok, t))
      × (server_get id t ≡ some ((Status.ok, buf), u))
server_get-server_put P id old buf s sound found fits owned small room =
    let (t, u, bytes, put, get, same) =
      read_file-write_file P (low_id id) old buf s sound found fits owned small room in
    (t, u, server_put_step id buf s small put, server_get_step id buf t get small same)

pub server_create_step :
    (type : ℕ) (s : Store) {t : Store} {id : ℕ}
    → alloc_inode type s ≡ some (id, t)
    → server_create type s ≡ some ((Status.ok, id), t)
unfolding server_create
server_create_step type s e = ground arith

pub server_getattr_step :
    (id : ℕ) (s : Store) {a : Attr}
    → getattr (low_id id) zero_attr s ≡ some (a, s)
    → server_getattr id s ≡ some ((Status.ok, a), s)
unfolding server_getattr
server_getattr_step id s e = ground arith

-- `getattr` of an id that the table does not hold answers OK with attributes that are all zero.
pub server_getattr_missing :
    (id : ℕ) (s : Store)
    → IsFormatted s
    → inode_at s (low_id id) ≡ none
    → server_getattr id s ≡ some ((Status.ok, zero_attr), s)
server_getattr_missing id s f e =
    server_getattr_step id s
      (getattr-inode_at (low_id id) zero_attr s f ∙ ap (λ o. some (attr_of o zero_attr, s)) e)

-- `create` and then `getattr`: OK, the next number, and attributes of an empty file of the type
-- that was asked for, whatever the environment gives. The disk is in order, the table has room, and
-- the type is positive and fits a short.
pub server_getattr-server_create :
    (type : ℕ) (s : Store)
    → IsSound s
    → s.last_inum + 1 < inode_num
    → type < 2 ^ 15
    → type ≢ 0
    → (t : Store) × (a : Attr) × (server_create type s ≡ some ((Status.ok, s.last_inum + 1), t))
      × (server_getattr (s.last_inum + 1) t ≡ some ((Status.ok, a), t))
      × (a.type ≡ type)
      × (a.size ≡ 0)
server_getattr-server_create type s sound room small typed =
    let (t, made, later, table) = alloc_inode-new_inode type s sound room (omega arith) in
    let ino : Inode = new_inode type (s.world s.tick) in
    let id : low_id (s.last_inum + 1) ≡ s.last_inum + 1 = omega arith in
    let found : inode_at t (s.last_inum + 1) ≡ some ino = table (s.last_inum + 1) ∙ ground arith in
    (
      t,
      attr_of (some ino) zero_attr,
      server_create_step type s made,
      server_getattr_step (s.last_inum + 1) t (
          rw id (
            getattr-inode_at (s.last_inum + 1) zero_attr t later.formatted
            ∙ ap (λ o. some (attr_of o zero_attr, t)) found)),
      ground arith,
      refl,
    )
