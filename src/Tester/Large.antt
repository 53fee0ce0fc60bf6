-- ===== src/Tester/Large.antt =====
-- test_indirect of part1_tester.cc over the server's disk.
use se.Base.{
  ℕ, zero, suc, ◌+◌, ◌≤◌, ◌<◌, ◌≡◌, ◌≢◌, refl, ap, ◌∙◌, Bytes, [], ◌++◌, arith, Option, some,
  length, length-append,
}
use se.Disk.{Store, inode_num}
use se.BlockManager.Count.{free_count}
use se.InodeManager.{t_file}
use se.InodeManager.Data.{max_size}
use se.Directory.Find.{same_name_refl}
use se.Spec.{File, Files, put_file}
use se.Extent.{Status, disk_client, server_create, server_put, server_get}
use se.Extent.State.{view, IsGood}
use se.Extent.Operations.{server_put-put_file, server_get-view}
use se.Extent.Lifetime.{server_create-put_file}
use se.System.{blocks_for_bound}
use se.Tester.{large_file_size, letters, put_large, test_indirect}

length-letters : (rand : ℕ → ℕ) (n i : ℕ) → length (letters rand n i) ≡ n
unfolding letters
length-letters rand zero i = refl
length-letters rand (suc n) i = ap suc (length-letters rand n (i + 1))

large_step :
    (buf buf2 : Bytes) (id1 id2 : ℕ) (s t u v w x y : Store)
    → server_create t_file s ≡ some ((Status.ok, id1), t)
    → server_put id1 buf t ≡ some (Status.ok, u)
    → server_create t_file u ≡ some ((Status.ok, id2), v)
    → server_put id2 buf2 v ≡ some (Status.ok, w)
    → server_get id1 w ≡ some ((Status.ok, buf), x)
    → server_get id2 x ≡ some ((Status.ok, buf2), y)
    → put_large disk_client buf buf2 s ≡ some (0, y)
unfolding put_large
large_step buf buf2 id1 id2 s t u v w x y a b c d e f =
    ground (arith, a, b, c, d, e, f, same_name_refl buf, same_name_refl buf2)

put_elsewhere :
    (v w : Files) (id k : ℕ) (o : Option File) → w ≡ put_file v id o → id ≢ k → w k ≡ v k
put_elsewhere v w id k o e differ = ap (λ x. x k) e ∙ ground arith

put_here : (v w : Files) (id : ℕ) (o : Option File) → w ≡ put_file v id o → w id ≡ o
put_here v w id o e = ap (λ x. x id) e ∙ ground arith

-- A file that is made and gets a string.
record Stored (buf : Bytes) (s : Store) : Type 0 where
  made : Store
  put : Store
  creates : server_create t_file s ≡ some ((Status.ok, s.last_inum + 1), made)
  puts : server_put (s.last_inum + 1) buf made ≡ some (Status.ok, put)
  good : IsGood put
  here : view put (s.last_inum + 1) ≡ some (record { type = t_file; content = buf })
  others : (k : ℕ) → s.last_inum + 1 ≢ k → view put k ≡ view s k
  room : free_count s ≤ free_count put + 229
  last : put.last_inum ≡ s.last_inum + 1

stores :
    (buf : Bytes) (s : Store)
    → IsGood s
    → s.last_inum + 1 < inode_num
    → length buf ≤ max_size
    → 229 ≤ free_count s
    → Stored buf s
stores buf s g left small room =
    let id : ℕ = s.last_inum + 1 in
    let (t, a, gt, _, vt, rt, lt) =
      server_create-put_file s t_file g left (omega arith) (omega arith) in
    let (u, b, gu, vu, ru, lu) =
      server_put-put_file t id (record { type = t_file; content = [] }) buf gt
        (put_here (view s) (view t) id _ vt) small
        (omega (arith, rt, room, blocks_for_bound (length buf) small)) in
    record {
      made = t;
      put = u;
      creates = a;
      puts = b;
      good = gu;
      here = put_here (view t) (view u) id _ vu;
      others = λ k differ.
          put_elsewhere (view t) (view u) id k _ vu differ
          ∙ put_elsewhere (view s) (view t) id k _ vt differ;
      room = omega (arith, ru, rt, blocks_for_bound (length buf) small);
      last = lu ∙ lt;
    }

reads_both :
    (buf buf2 : Bytes) (s : Store) (a : Stored buf s) (b : Stored buf2 a.put)
    → s.last_inum ≡ 51
    → (t : Store) × (put_large disk_client buf buf2 s ≡ some (0, t))
      × IsGood t
      × ((k : ℕ) → k < 52 → view t k ≡ view s k)
reads_both buf buf2 s a b last =
    let id1 : ℕ = s.last_inum + 1 in
    let id2 : ℕ = a.put.last_inum + 1 in
    let first_there : view b.put id1 ≡ some (record { type = t_file; content = buf }) =
      b.others id1 (omega (arith, a.last)) ∙ a.here in
    let (x, e, gx, vx, _, _) =
      server_get-view b.put id1 (record { type = t_file; content = buf }) b.good first_there in
    let (y, f, gy, vy, _, _) =
      server_get-view x id2 (record { type = t_file; content = buf2 }) gx
        (ap (λ z. z id2) vx ∙ b.here) in
    (
      y,
      large_step buf buf2 id1 id2 s a.made a.put b.made b.put x y a.creates a.puts b.creates b.puts
          e f,
      gy,
      λ k less.
          ap (λ z. z k) (vy ∙ vx)
          ∙ (b.others k (omega (arith, a.last, last)) ∙ a.others k (omega (arith, last))),
    )

put_large_pass :
    (buf buf2 : Bytes) (s : Store)
    → IsGood s
    → s.last_inum ≡ 51
    → length buf ≤ max_size
    → length buf2 ≤ max_size
    → 458 ≤ free_count s
    → (t : Store) × (put_large disk_client buf buf2 s ≡ some (0, t))
      × IsGood t
      × ((k : ℕ) → k < 52 → view t k ≡ view s k)
put_large_pass buf buf2 s g last small small2 room =
    let a : Stored buf s = stores buf s g (omega (arith, last)) small (omega (arith, room)) in
    let b : Stored buf2 a.put =
      stores buf2 a.put a.good (omega (arith, a.last, last)) small2 (omega (arith, a.room, room)) in
    reads_both buf buf2 s a b last

indirect_step :
    (rand1 rand2 : ℕ → ℕ) (beyond1 beyond2 : Bytes) (s t : Store)
    → put_large disk_client
        (letters rand1 large_file_size 0 ++ beyond1)
        (letters rand2 large_file_size 0 ++ beyond2)
        s
      ≡ some (0, t)
    → test_indirect disk_client rand1 rand2 beyond1 beyond2 s ≡ some ((0, 10), t)
unfolding test_indirect
indirect_step rand1 rand2 beyond1 beyond2 s t e = ground (arith, e)

large_fits :
    (rand : ℕ → ℕ) (beyond : Bytes)
    → length beyond ≤ 1000
    → length (letters rand large_file_size 0 ++ beyond) ≤ max_size
large_fits rand beyond h = omega (
  arith,
  length-append (letters rand large_file_size 0) beyond,
  length-letters rand large_file_size 0,
  h,
)

-- On a disk in order whose last number is 51 and which has 458 free blocks the test passes, if the
-- strings end within 1000 bytes behind their buffers; the files below number 52 are as before.
pub test_indirect_passes :
    (rand1 rand2 : ℕ → ℕ) (beyond1 beyond2 : Bytes) (s : Store)
    → IsGood s
    → s.last_inum ≡ 51
    → 458 ≤ free_count s
    → length beyond1 ≤ 1000
    → length beyond2 ≤ 1000
    → (t : Store) × (test_indirect disk_client rand1 rand2 beyond1 beyond2 s ≡ some ((0, 10), t))
      × IsGood t
      × ((k : ℕ) → k < 52 → view t k ≡ view s k)
test_indirect_passes rand1 rand2 beyond1 beyond2 s g last room h1 h2 =
    let (t, runs, good, kept) =
      put_large_pass _ _ s g last (large_fits rand1 beyond1 h1) (large_fits rand2 beyond2 h2)
        room in
    (t, indirect_step rand1 rand2 beyond1 beyond2 s t runs, good, kept)
