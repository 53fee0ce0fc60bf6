-- ===== src/Tester/Removes.antt =====
-- test_remove of part1_tester.cc over the server's disk.
use se.Base.{
  ℕ, zero, suc, ◌+◌, ◌^◌, ◌≤◌, ◌<◌, ◌≡◌, refl, ap, ◌∙◌, arith, some, none, ltb, ◌==◌, if◌then◌else◌,
}
use se.Disk.{Store}
use se.InodeManager.{Attr}
use se.Spec.{File, Files, put_file, type_of}
use se.Extent.{Status, disk_client, server_remove, server_getattr}
use se.Extent.State.{view, IsGood}
use se.Extent.Operations.{server_getattr-view}
use se.Extent.Lifetime.{server_remove-put_file}
use se.Tester.{remove_rounds, test_remove}

remove_step :
    (n i : ℕ) (s t u : Store) (a : Attr)
    → server_remove (i + 2) s ≡ some (Status.ok, t)
    → server_getattr (i + 2) t ≡ some ((Status.ok, a), t)
    → a.type ≡ 0
    → remove_rounds disk_client n (i + 1) t ≡ some (0, u)
    → remove_rounds disk_client (suc n) i s ≡ some (0, u)
unfolding remove_rounds
remove_step n i s t u a e e' k r = ground (arith, e, e', r)

-- The files from number i + 2 on, n of them, are there.
unfoldable pub AreThere : ℕ → ℕ → Store → Type 0
AreThere i n s = (j : ℕ) → i ≤ j → j < i + n → (f : File) × (view s (j + 2) ≡ some f)

rest_there :
    (i n : ℕ) (s t : Store)
    → view t ≡ put_file (view s) (i + 2) none
    → AreThere i (suc n) s
    → AreThere (i + 1) n t
unfolding AreThere
rest_there i n s t files h j low high =
    let (f, e) = h j (omega arith) (omega arith) in
    (f, ap (λ v. v (j + 2)) files ∙ ground (arith, e))

one_removed :
    (v w : Files) (i m k : ℕ)
    → w ≡ put_file v (i + 2) none
    → (if ltb k (i + 1 + 2) then w k else if ltb k (i + 1 + m + 2) then none else w k)
      ≡ (if ltb k (i + 2) then v k else if ltb k (i + suc m + 2) then none else v k)
one_removed v w i m k files =
    let here : w k ≡ (if i + 2 == k then none else v k) = ap (λ x. x k) files in
    ground (arith, here)

remove_rounds_pass :
    (n i : ℕ) (s : Store)
    → IsGood s
    → i + n < 2 ^ 30
    → AreThere i n s
    → (t : Store) × (remove_rounds disk_client n i s ≡ some (0, t))
      × IsGood t
      × ((k : ℕ)
          → view t k
            ≡ (if ltb k (i + 2) then view s k else if ltb k (i + n + 2) then none else view s k))
unfolding AreThere
remove_rounds_pass zero i s g few h = (s, unfold remove_rounds in refl, g, λ k. ground arith)
remove_rounds_pass (suc n) i s g few h =
    let (f, e) = h i (omega arith) (omega arith) in
    let (t, removed, good, files, _, _) = server_remove-put_file s (i + 2) f g e in
    let (a, got, typed, _) = server_getattr-view t (i + 2) good (omega arith) in
    let gone : view t (i + 2) ≡ none = ap (λ v. v (i + 2)) files ∙ ground arith in
    let (u, rounds, good', table) =
      remove_rounds_pass n (i + 1) t good (omega arith) (rest_there i n s t files h) in
    (
      u,
      remove_step n i s t u a removed got (typed ∙ ap type_of gone) rounds,
      good',
      λ k. table k ∙ one_removed (view s) (view t) i n k files,
    )

removed_all :
    (s t : Store)
    → remove_rounds disk_client 50 0 s ≡ some (0, t)
    → test_remove disk_client s ≡ some ((0, 20), t)
unfolding test_remove
removed_all s t e = ground (arith, e)

-- On a disk in order with files under the numbers from 2 to 51 the test passes: it returns 0 and adds
-- 20 points. Afterwards these files are gone, every other one is as before, and the disk is in order.
pub test_remove_passes :
    (s : Store)
    → IsGood s
    → ((j : ℕ) → j < 50 → (f : File) × (view s (j + 2) ≡ some f))
    → (t : Store) × (test_remove disk_client s ≡ some ((0, 20), t))
      × IsGood t
      × ((k : ℕ) → view t k ≡ (if ltb k 2 then view s k else if ltb k 52 then none else view s k))
unfolding AreThere
test_remove_passes s g h =
    let (t, rounds, good, table) =
      remove_rounds_pass 50 0 s g (omega arith) (λ j low high. h j (omega arith)) in
    (t, removed_all s t rounds, good, table)
