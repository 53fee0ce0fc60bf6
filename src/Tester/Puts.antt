-- ===== src/Tester/Puts.antt =====
-- test_put_and_get of part1_tester.cc over the server's disk: its two loops.
use se.Base.{
  ℕ, zero, suc, ◌+◌, ◌%◌, ◌≤◌, ◌<◌, ◌≡◌, ◌≢◌, refl, ap, ◌∙◌, sym, subst, inl, inr, arith, some,
  equal_or_not, some_inj, length,
}
use se.Disk.{Store}
use se.BlockManager.Count.{free_count}
use se.InodeManager.{Attr, t_file}
use se.InodeManager.Stores.{blocks_for}
use se.InodeManager.Loops.{rounds}
use se.Directory.Number.{length-filename}
use se.Directory.Find.{same_name_refl}
use se.Spec.{File, put_file, type_of}
use se.Extent.{Status, disk_client, server_put, server_get, server_getattr}
use se.Extent.State.{view, IsGood}
use se.Extent.Operations.{server_getattr-view, server_put-put_file, server_get-view}
use se.Extent.Refines.{blocks_for_mono}
use se.Tester.{decimal, store_at, put_rounds, get_rounds}

put_step :
    (rand : ℕ → ℕ) (n i : ℕ) (contents : ℕ → ℕ) (s t : Store) (a : Attr) (r : (ℕ × (ℕ → ℕ)) × Store)
    → server_getattr (i + 2) s ≡ some ((Status.ok, a), s)
    → a.type ≡ t_file
    → server_put (i + 2) (decimal (rand i % 10000)) s ≡ some (Status.ok, t)
    → put_rounds disk_client rand n (i + 1) (store_at contents i (rand i % 10000)) t ≡ some r
    → put_rounds disk_client rand (suc n) i contents s ≡ some r
unfolding put_rounds
put_step rand n i contents s t a r e k e' rest = ground (arith, e, e', rest)

skip_step :
    (rand : ℕ → ℕ) (n i : ℕ) (contents : ℕ → ℕ) (s : Store) (a : Attr) (r : (ℕ × (ℕ → ℕ)) × Store)
    → server_getattr (i + 2) s ≡ some ((Status.ok, a), s)
    → a.type ≢ t_file
    → put_rounds disk_client rand n (i + 1) contents s ≡ some r
    → put_rounds disk_client rand (suc n) i contents s ≡ some r
unfolding put_rounds
skip_step rand n i contents s a r e k rest = ground (arith, e, rest)

get_step :
    (contents : ℕ → ℕ) (n i : ℕ) (s t u : Store) (a : Attr)
    → server_getattr (i + 2) s ≡ some ((Status.ok, a), s)
    → a.type ≡ t_file
    → server_get (i + 2) s ≡ some ((Status.ok, decimal (contents i)), t)
    → get_rounds disk_client contents n (i + 1) t ≡ some (0, u)
    → get_rounds disk_client contents (suc n) i s ≡ some (0, u)
unfolding get_rounds
get_step contents n i s t u a e k e' rest =
    ground (arith, e, e', rest, same_name_refl (decimal (contents i)))

pass_step :
    (contents : ℕ → ℕ) (n i : ℕ) (s u : Store) (a : Attr)
    → server_getattr (i + 2) s ≡ some ((Status.ok, a), s)
    → a.type ≢ t_file
    → get_rounds disk_client contents n (i + 1) s ≡ some (0, u)
    → get_rounds disk_client contents (suc n) i s ≡ some (0, u)
unfolding get_rounds
pass_step contents n i s u a e k rest = ground (arith, e, rest)

-- The 50 files are there.
unfoldable pub HasFiles : Store → Type 0
HasFiles s = (j : ℕ) → j < 50 → (f : File) × (view s (j + 2) ≡ some f)

-- The first k of them that are regular files hold the numbers.
unfoldable pub Holds : (ℕ → ℕ) → ℕ → Store → Type 0
Holds contents k s =
    (j : ℕ) (f : File)
    → j < k
    → view s (j + 2) ≡ some f
    → f.type ≡ t_file
    → f.content ≡ decimal (contents j)

-- Such a number takes one block.
decimal_block : (n : ℕ) → blocks_for (length (decimal n)) ≤ 1
decimal_block n = omega (arith, blocks_for_mono (length (decimal n)) 20 (length-filename n), one)
  where
    one : blocks_for 20 ≡ 1
    one = unfold blocks_for rounds in refl

HasFiles-put :
    (s t : Store) (i : ℕ) (g : File)
    → view t ≡ put_file (view s) (i + 2) (some g)
    → HasFiles s
    → HasFiles t
unfolding HasFiles
HasFiles-put s t i g files h j less = elim (equal_or_not j i) [
  | inl same ↦ (g, ap (λ v. v (j + 2)) files ∙ ground arith)
  | inr differ ↦ let (f, e) = h j less in (f, ap (λ v. v (j + 2)) files ∙ ground (arith, e))
]

Holds-put :
    (s t : Store) (i rnum : ℕ) (contents : ℕ → ℕ) (g : File)
    → view t ≡ put_file (view s) (i + 2) (some g)
    → g.content ≡ decimal rnum
    → Holds contents i s
    → Holds (store_at contents i rnum) (i + 1) t
unfolding Holds
Holds-put s t i rnum contents g files e h j f less there typed = elim (equal_or_not j i) [
  | inl same ↦
      let found : view t (j + 2) ≡ some g = ap (λ v. v (j + 2)) files ∙ ground arith in
      let equal : g ≡ f = some_inj (sym found ∙ there) in
      let number : store_at contents i rnum j ≡ rnum = ground arith in
      ap (λ x. x.content) (sym equal) ∙ e ∙ ap decimal (sym number)
  | inr differ ↦
      let kept : view t (j + 2) ≡ view s (j + 2) = ap (λ v. v (j + 2)) files ∙ ground arith in
      let number : store_at contents i rnum j ≡ contents j = ground arith in
      h j f (omega arith) (sym kept ∙ there) typed ∙ ap decimal (sym number)
]

Holds-skip :
    (s : Store) (i : ℕ) (contents : ℕ → ℕ) (g : File)
    → view s (i + 2) ≡ some g
    → g.type ≢ t_file
    → Holds contents i s
    → Holds contents (i + 1) s
unfolding Holds
Holds-skip s i contents g here other h j f less there typed = elim (equal_or_not j i) [
  | inl same ↦
      let equal : g ≡ f = some_inj (sym here ∙ (ap (λ k. view s (k + 2)) (sym same) ∙ there)) in
      absurd (other (ap (λ x. x.type) equal ∙ typed))
  | inr differ ↦ h j f (omega arith) there typed
]

-- What the first loop leaves.
pub record Puts (rand contents : ℕ → ℕ) (n i : ℕ) (s : Store) : Type 0 where
  pub state : Store
  pub numbers : ℕ → ℕ
  pub runs : put_rounds disk_client rand n i contents s ≡ some ((0, numbers), state)
  pub good : IsGood state
  pub files : HasFiles state
  pub holds : Holds numbers (i + n) state
  pub room : free_count s ≤ free_count state + n
  pub last : state.last_inum ≡ s.last_inum

pub put_rounds_pass :
    (rand : ℕ → ℕ) (n i : ℕ) (contents : ℕ → ℕ) (s : Store)
    → IsGood s
    → i + n ≤ 50
    → HasFiles s
    → Holds contents i s
    → n ≤ free_count s
    → Puts rand contents n i s
unfolding HasFiles
put_rounds_pass rand zero i contents s g few files holds room = record {
  state = s;
  numbers = contents;
  runs = unfold put_rounds in refl;
  good = g;
  files = files;
  holds = subst (λ k. Holds contents k s) (omega arith) holds;
  room = omega arith;
  last = refl;
}
put_rounds_pass rand (suc n) i contents s g few files holds room =
    let (f, here) = files i (omega arith) in
    let (a, got, typed, _) = server_getattr-view s (i + 2) g (omega arith) in
    let type : a.type ≡ f.type = typed ∙ ap type_of here in
    let rnum : ℕ = rand i % 10000 in
    elim (equal_or_not a.type t_file) [
      | inl file ↦
          let (t, put, good, table, space, last) =
            server_put-put_file s (i + 2) f (decimal rnum) g here
              (omega (arith, length-filename rnum)) (omega (arith, decimal_block rnum, room)) in
          let p =
            put_rounds_pass rand n (i + 1) (store_at contents i rnum) t good (omega arith)
              (HasFiles-put s t i _ table files) (Holds-put s t i rnum contents _ table refl holds)
              (omega (arith, space, decimal_block rnum, room)) in
          record {
            state = p.state;
            numbers = p.numbers;
            runs = put_step rand n i contents s t a _ got file put p.runs;
            good = p.good;
            files = p.files;
            holds = subst (λ k. Holds p.numbers k p.state) (omega arith) p.holds;
            room = omega (arith, p.room, space, decimal_block rnum);
            last = p.last ∙ last;
          }
      | inr other ↦
          let p =
            put_rounds_pass rand n (i + 1) contents s g (omega arith) files
              (Holds-skip s i contents f here (λ e. other (type ∙ e)) holds)
              (omega (arith, room)) in
          record {
            state = p.state;
            numbers = p.numbers;
            runs = skip_step rand n i contents s a _ got other p.runs;
            good = p.good;
            files = p.files;
            holds = subst (λ k. Holds p.numbers k p.state) (omega arith) p.holds;
            room = omega (arith, p.room);
            last = p.last;
          }
    ]

-- The second loop finds the numbers.
pub get_rounds_pass :
    (contents : ℕ → ℕ) (n i : ℕ) (s : Store)
    → IsGood s
    → i + n ≤ 50
    → HasFiles s
    → Holds contents 50 s
    → (t : Store) × (get_rounds disk_client contents n i s ≡ some (0, t))
      × IsGood t
      × (view t ≡ view s)
      × (free_count t ≡ free_count s)
      × (t.last_inum ≡ s.last_inum)
unfolding HasFiles Holds
get_rounds_pass contents zero i s g few files holds =
    (s, unfold get_rounds in refl, g, refl, refl, refl)
get_rounds_pass contents (suc n) i s g few files holds =
    let (f, here) = files i (omega arith) in
    let (a, got, typed, _) = server_getattr-view s (i + 2) g (omega arith) in
    let type : a.type ≡ f.type = typed ∙ ap type_of here in
    elim (equal_or_not a.type t_file) [
      | inl file ↦
          let (t, read, good, table, room, last) = server_get-view s (i + 2) f g here in
          let text : f.content ≡ decimal (contents i) =
            holds i f (omega arith) here (sym type ∙ file) in
          let (u, rest, good', table', room', last') =
            get_rounds_pass contents n (i + 1) t good (omega arith)
              (subst (λ v. (j : ℕ) → j < 50 → (f : File) × (v (j + 2) ≡ some f)) (sym table) files)
              (subst
                (λ v.
                  (j : ℕ) (f : File)
                  → j < 50
                  → v (j + 2) ≡ some f
                  → f.type ≡ t_file
                  → f.content ≡ decimal (contents j))
                (sym table) holds) in
          (
            u,
            get_step contents n i s t u a got file (read ∙ ap (λ b. some ((Status.ok, b), t)) text)
                rest,
            good',
            table' ∙ table,
            room' ∙ room,
            last' ∙ last,
          )
      | inr other ↦
          let (u, rest, good, table, room, last) =
            get_rounds_pass contents n (i + 1) s g (omega arith) files holds in
          (u, pass_step contents n i s u a got other rest, good, table, room, last)
    ]
