-- ===== src/Tester/Creates.antt =====
-- test_create_and_getattr of part1_tester.cc over the server's disk.
use se.Base.{
  ℕ, zero, suc, ◌+◌, ◌%◌, ◌^◌, ◌<◌, ◌≡◌, ◌≢◌, refl, ap, ◌∙◌, subst, [], inl, inr, arith, some,
  equal_or_not,
}
use se.Disk.{Store, inode_num}
use se.BlockManager.Count.{free_count}
use se.InodeManager.{Attr}
use se.Spec.{File, put_file, type_of}
use se.Extent.{Status, disk_client, server_create, server_getattr}
use se.Extent.State.{view, IsGood}
use se.Extent.Operations.{server_getattr-view}
use se.Extent.Lifetime.{server_create-put_file}
use se.Tester.{drawn_type, create_round, create_rounds, test_create_and_getattr}

create_round_step :
    (type id : ℕ) (s t : Store) (a : Attr)
    → server_create type s ≡ some ((Status.ok, id), t)
    → id % 2 ^ 32 ≢ 0
    → server_getattr id t ≡ some ((Status.ok, a), t)
    → a.type ≡ type
    → create_round disk_client type s ≡ some (0, t)
unfolding create_round
create_round_step type id s t a e h e' k = ground (arith, e, e')

abbrev pub empty_file : ℕ → File
empty_file type = record { type = type; content = [] }

create_round_pass :
    (type : ℕ) (s : Store)
    → IsGood s
    → s.last_inum + 1 < inode_num
    → 0 < type
    → type < 2 ^ 15
    → (t : Store) × (create_round disk_client type s ≡ some (0, t))
      × IsGood t
      × (view t ≡ put_file (view s) (s.last_inum + 1) (some (empty_file type)))
      × (free_count t ≡ free_count s)
      × (t.last_inum ≡ s.last_inum + 1)
create_round_pass type s g left positive small =
    let (t, made, good, _, files, room, last) =
      server_create-put_file s type g left positive small in
    let (a, got, typed, _) = server_getattr-view t (s.last_inum + 1) good (omega arith) in
    let there : view t (s.last_inum + 1) ≡ some (empty_file type) =
      ap (λ v. v (s.last_inum + 1)) files ∙ ground arith in
    (
      t,
      create_round_step type (s.last_inum + 1) s t a made (omega arith) got
          (typed ∙ ap type_of there),
      good,
      files,
      room,
      last,
    )

pub drawn_type_small : (n : ℕ) → (0 < drawn_type n) × (drawn_type n < 2 ^ 15)
drawn_type_small n = (ground arith, ground arith)

-- The first k files are there, and empty.
unfoldable pub IsCreated : (ℕ → ℕ) → ℕ → Store → Type 0
IsCreated rand k s = (j : ℕ) → j < k → view s (j + 2) ≡ some (empty_file (drawn_type (rand j)))

create_rounds_step :
    (rand : ℕ → ℕ) (n i : ℕ) (s t u : Store)
    → create_round disk_client (drawn_type (rand i)) s ≡ some (0, t)
    → create_rounds disk_client rand n (i + 1) t ≡ some (0, u)
    → create_rounds disk_client rand (suc n) i s ≡ some (0, u)
unfolding create_rounds
create_rounds_step rand n i s t u e e' = ground (arith, e, e')

one_more :
    (rand : ℕ → ℕ) (i : ℕ) (s t : Store)
    → s.last_inum ≡ i + 1
    → view t ≡ put_file (view s) (s.last_inum + 1) (some (empty_file (drawn_type (rand i))))
    → IsCreated rand i s
    → IsCreated rand (i + 1) t
unfolding IsCreated
one_more rand i s t last files h j less = ap (λ v. v (j + 2)) files ∙ elim (equal_or_not j i) [
  | inl same ↦ ground (arith, last, same, ap (λ k. some (empty_file (drawn_type (rand k)))) same)
  | inr differ ↦ ground (arith, last, differ, h j (omega arith))
]

create_rounds_pass :
    (rand : ℕ → ℕ) (n i : ℕ) (s : Store)
    → IsGood s
    → s.last_inum ≡ i + 1
    → i + n < 1000
    → IsCreated rand i s
    → (t : Store) × (create_rounds disk_client rand n i s ≡ some (0, t))
      × IsGood t
      × (t.last_inum ≡ i + n + 1)
      × IsCreated rand (i + n) t
      × (free_count t ≡ free_count s)
create_rounds_pass rand zero i s g last few h = (
  s,
  unfold create_rounds in refl,
  g,
  omega (arith, last),
  subst (λ k. IsCreated rand k s) (omega arith) h,
  refl,
)
create_rounds_pass rand (suc n) i s g last few h =
    let (positive, small) = drawn_type_small (rand i) in
    let (t, round, good, files, room, last') =
      create_round_pass (drawn_type (rand i)) s g (omega (arith, last)) positive small in
    let (u, rounds, good', last'', all, room') =
      create_rounds_pass rand n (i + 1) t good (omega (arith, last, last')) (omega arith)
        (one_more rand i s t last files h) in
    (
      u,
      create_rounds_step rand n i s t u round rounds,
      good',
      omega (arith, last''),
      subst (λ k. IsCreated rand k u) (omega arith) all,
      room' ∙ room,
    )

passed :
    (rand : ℕ → ℕ) (s t : Store)
    → create_rounds disk_client rand 50 0 s ≡ some (0, t)
    → test_create_and_getattr disk_client rand s ≡ some ((0, 40), t)
unfolding test_create_and_getattr
passed rand s t e = ground (arith, e)

-- On a disk in order on which the root directory is the last file, the test passes: it returns 0 and
-- adds 40 points. Afterwards there are 50 empty files of the types that were drawn under the numbers
-- from 2, no block is used, and the disk is in order.
pub test_create_and_getattr_passes :
    (rand : ℕ → ℕ) (s : Store)
    → IsGood s
    → s.last_inum ≡ 1
    → (t : Store) × (test_create_and_getattr disk_client rand s ≡ some ((0, 40), t))
      × IsGood t
      × (t.last_inum ≡ 51)
      × ((j : ℕ)
          → j < 50
          → view t (j + 2) ≡ some (record { type = drawn_type (rand j); content = [] }))
      × (free_count t ≡ free_count s)
unfolding IsCreated
test_create_and_getattr_passes rand s g last =
    let (t, rounds, good, last', all, room) =
      create_rounds_pass rand 50 0 s g last (omega arith) (λ j less. absurd (omega arith)) in
    (t, passed rand s t rounds, good, last', all, room)
