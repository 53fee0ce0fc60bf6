-- ===== src/Tester/Passes.antt =====
-- part1_tester.cc as a whole, over the server's disk from its start on.
use se.Base.{ℕ, ◌+◌, ◌≤◌, ◌<◌, ◌≡◌, ap, ◌∙◌, sym, subst, Bytes, arith, some, length, some_inj}
use se.Disk.{Store, World}
use se.BlockManager.Count.{free_count}
use se.InodeManager.{boot}
use se.Spec.{File}
use se.Extent.{disk_client}
use se.Extent.State.{view, IsGood}
use se.Extent.Refines.{numbers_left}
use se.Extent.Booting.{IsEnvironment, boot-IsGood}
use se.Tester.{
  put_rounds, get_rounds, test_create_and_getattr, test_put_and_get, test_indirect, test_remove,
  tester,
}
use se.Tester.Creates.{test_create_and_getattr_passes}
use se.Tester.Puts.{HasFiles, Holds, put_rounds_pass, get_rounds_pass}
use se.Tester.Large.{test_indirect_passes}
use se.Tester.Removes.{test_remove_passes}

put_and_get_step :
    (memory rand rand1 rand2 numbers : ℕ → ℕ) (beyond1 beyond2 : Bytes) (s t u v : Store)
    → put_rounds disk_client rand 50 0 memory s ≡ some ((0, numbers), t)
    → get_rounds disk_client numbers 50 0 t ≡ some (0, u)
    → test_indirect disk_client rand1 rand2 beyond1 beyond2 u ≡ some ((0, 10), v)
    → test_put_and_get disk_client memory rand rand1 rand2 beyond1 beyond2 s ≡ some ((0, 40), v)
unfolding test_put_and_get
put_and_get_step memory rand rand1 rand2 numbers beyond1 beyond2 s t u v a b c =
    ground (arith, a, b, c)

-- On a disk in order with files under the numbers from 2 to 51, of which the last is the last one of
-- all, and 508 free blocks, test_put_and_get passes: it returns 0 and adds 40 points, and the files
-- are still there.
pub test_put_and_get_passes :
    (memory rand rand1 rand2 : ℕ → ℕ) (beyond1 beyond2 : Bytes) (s : Store)
    → IsGood s
    → s.last_inum ≡ 51
    → ((j : ℕ) → j < 50 → (f : File) × (view s (j + 2) ≡ some f))
    → 508 ≤ free_count s
    → length beyond1 ≤ 1000
    → length beyond2 ≤ 1000
    → (t : Store) × (test_put_and_get disk_client memory rand rand1 rand2 beyond1 beyond2 s
        ≡ some ((0, 40), t))
      × IsGood t
      × ((j : ℕ) → j < 50 → (f : File) × (view t (j + 2) ≡ some f))
unfolding HasFiles Holds
test_put_and_get_passes memory rand rand1 rand2 beyond1 beyond2 s g last files room h1 h2 =
    let p =
      put_rounds_pass rand 50 0 memory s g (omega arith) files (λ j f less. absurd (omega arith))
        (omega (arith, room)) in
    let (u, got, good, table, space, last') =
      get_rounds_pass p.numbers 50 0 p.state p.good (omega arith) p.files p.holds in
    let (v, large, good', kept) =
      test_indirect_passes rand1 rand2 beyond1 beyond2 u good (omega (arith, last', p.last, last))
        (omega (arith, space, p.room, room)) h1 h2 in
    (
      v,
      put_and_get_step memory rand rand1 rand2 p.numbers beyond1 beyond2 s p.state u v p.runs got
          large,
      good',
      λ j less.
          let (f, e) = p.files j less in
          (f, kept (j + 2) (omega arith) ∙ (ap (λ x. x (j + 2)) table ∙ e)),
    )

tester_step :
    (rand memory rand' rand1 rand2 : ℕ → ℕ) (beyond1 beyond2 : Bytes) (s t u v : Store)
    → test_create_and_getattr disk_client rand s ≡ some ((0, 40), t)
    → test_put_and_get disk_client memory rand' rand1 rand2 beyond1 beyond2 t ≡ some ((0, 40), u)
    → test_remove disk_client u ≡ some ((0, 20), v)
    → tester disk_client rand memory rand' rand1 rand2 beyond1 beyond2 s ≡ some (100, v)
unfolding tester
tester_step rand memory rand' rand1 rand2 beyond1 beyond2 s t u v a b c = ground (arith, a, b, c)

-- From the start on a formatted disk, the test program runs to its end and prints the full score of
-- 100, whatever numbers it draws, and the disk is in order afterwards. The environment gives 32-bit
-- words, and the two strings that test_indirect does not end with a null byte end within 1000 bytes
-- behind their buffers.
pub tester_passes :
    (world : ℕ → World) (s : Store) (rand memory rand' rand1 rand2 : ℕ → ℕ)
    (beyond1 beyond2 : Bytes)
    → IsEnvironment world
    → boot world ≡ some s
    → length beyond1 ≤ 1000
    → length beyond2 ≤ 1000
    → (t : Store) × (tester disk_client rand memory rand' rand1 rand2 beyond1 beyond2 s
        ≡ some (100, t))
      × IsGood t
tester_passes world s rand memory rand' rand1 rand2 beyond1 beyond2 h e h1 h2 =
    let (s', started, good', _, free', left') = boot-IsGood world h in
    let same : s' ≡ s = some_inj (sym started ∙ e) in
    let good : IsGood s = subst IsGood same good' in
    let free : free_count s ≡ 24576 = ap free_count (sym same) ∙ free' in
    let left : numbers_left s ≡ 1022 = ap numbers_left (sym same) ∙ left' in
    let (t, created, gt, last, files, room) =
      test_create_and_getattr_passes rand s good (omega (arith, left)) in
    let (u, put, gu, there) =
      test_put_and_get_passes memory rand' rand1 rand2 beyond1 beyond2 t gt last
        (λ j less. (_, files j less)) (omega (arith, room, free)) h1 h2 in
    let (v, removed, gv, _) = test_remove_passes u gu there in
    (v, tester_step rand memory rand' rand1 rand2 beyond1 beyond2 s t u v created put removed, gv)
