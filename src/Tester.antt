-- ===== src/Tester.antt =====
-- part1_tester.cc, over any extent client. The numbers of `rand()` are arguments, one function for
-- each loop that draws them; `beyond` is what follows the buffers of test_indirect up to a null
-- byte. A test gives its return value and the points that it adds to `total_score`.
pub mod Creates
pub mod Puts
pub mod Large
pub mod Passes
pub mod Removes
use se.Base.{
  ℕ, zero, suc, ◌+◌, ◌*◌, ◌%◌, ◌^◌, Bytes, [], ◌∷◌, ◌++◌, Bool, true, false, M, pure, ◌>>=◌, ltb,
  ◌==◌, if◌then◌else◌,
}
use se.InodeManager.{t_dir, t_file}
use se.Extent.{is_ok, ExtentClient}
use se.Directory.{filename, same_name}

abbrev pub file_num : ℕ
file_num = 50

abbrev pub large_file_size : ℕ
large_file_size = 512 * 64

-- `sprintf(temp, "%d", n)`
abbrev pub decimal : ℕ → Bytes
decimal n = filename n

unfoldable pub letters : (ℕ → ℕ) → ℕ → ℕ → Bytes
letters rand zero i = []
letters rand (suc n) i = (97 + rand i % 26) ∷ letters rand n (i + 1)

-- The type that a drawn number stands for.
abbrev pub drawn_type : ℕ → ℕ
drawn_type rnum = if ltb (rnum % 10) 3 then t_dir else t_file

-- `contents[i] = rnum`
abbrev pub store_at : (ℕ → ℕ) → ℕ → ℕ → ℕ → ℕ
store_at contents i rnum j = if j == i then rnum else contents j

module _ (ec : ExtentClient) where
  open ec use {State}

  -- A check that ends the test with a code if it fails.
  abbrev pub expect : Bool → ℕ → M State ℕ → M State ℕ
  expect true code rest = rest
  expect false code rest = pure code

  -- A round of test_create_and_getattr; 0 goes on.
  unfoldable pub create_round : ℕ → M State ℕ
  create_round type = do
    (_, id) ← ec.create type
    expect (if id % 2 ^ 32 == 0 then false else true) 1
        (do (r, a) ← ec.getattr id; expect (is_ok r) 2 (expect (a.type == type) 3 (pure 0)))

  unfoldable pub create_rounds : (ℕ → ℕ) → ℕ → ℕ → M State ℕ
  create_rounds rand zero i = pure 0
  create_rounds rand (suc n) i = do
    code ← create_round (drawn_type (rand i))
    let rest = create_rounds rand n (i + 1) in if code == 0 then rest else pure code

  unfoldable pub test_create_and_getattr : (ℕ → ℕ) → M State (ℕ × ℕ)
  test_create_and_getattr rand = do
    code ← create_rounds rand file_num 0
    pure (code, if code == 0 then 40 else 0)

  -- What test_indirect does once its two strings are there.
  unfoldable pub put_large : Bytes → Bytes → M State ℕ
  put_large buf buf2 = do
    (_, id1) ← ec.create t_file
    r ← ec.put id1 buf
    expect (is_ok r) 1 (do
      (_, id2) ← ec.create t_file
      r ← ec.put id2 buf2
      expect (is_ok r) 2 (do
        (r, buf_2) ← ec.get id1
        expect (is_ok r) 3 (
            expect (same_name buf buf_2) 4 (do
              (r, buf2_2) ← ec.get id2
              expect (is_ok r) 5 (expect (same_name buf2 buf2_2) 6 (pure 0))))))

  unfoldable pub test_indirect : (ℕ → ℕ) → (ℕ → ℕ) → Bytes → Bytes → M State (ℕ × ℕ)
  test_indirect rand1 rand2 beyond1 beyond2 = do
    code ←
        put_large (letters rand1 large_file_size 0 ++ beyond1)
          (letters rand2 large_file_size 0 ++ beyond2)
    pure (code, if code == 0 then 10 else 0)

  -- The first loop of test_put_and_get, with `contents`.
  unfoldable pub put_rounds : (ℕ → ℕ) → ℕ → ℕ → (ℕ → ℕ) → M State (ℕ × (ℕ → ℕ))
  put_rounds rand zero i contents = pure (0, contents)
  put_rounds rand (suc n) i contents =
      let rnum = rand i % 10000 in
      let skip = put_rounds rand n (i + 1) contents in
      let go_on = put_rounds rand n (i + 1) (store_at contents i rnum) in
      do
        (r, a) ← ec.getattr (i + 2)
        if is_ok r
            then (if a.type == t_file
                then (do
                  r ← ec.put (i + 2) (decimal rnum)
                  if is_ok r then go_on else pure (2, contents))
                else skip)
            else pure (1, contents)

  -- The second loop of test_put_and_get.
  unfoldable pub get_rounds : (ℕ → ℕ) → ℕ → ℕ → M State ℕ
  get_rounds contents zero i = pure 0
  get_rounds contents (suc n) i =
      let rest = get_rounds contents n (i + 1) in
      do
        (r, a) ← ec.getattr (i + 2)
        expect (is_ok r) 3 (
            if a.type == t_file
            then (do
              (r, buf) ← ec.get (i + 2)
              expect (is_ok r) 4 (expect (same_name buf (decimal (contents i))) 5 rest))
            else rest)

  -- The result of test_indirect is not looked at.
  unfoldable pub test_put_and_get :
      (ℕ → ℕ) → (ℕ → ℕ) → (ℕ → ℕ) → (ℕ → ℕ) → Bytes → Bytes → M State (ℕ × ℕ)
  test_put_and_get memory rand rand1 rand2 beyond1 beyond2 = do
    (code, contents) ← put_rounds rand file_num 0 memory
    if code == 0
        then (do
          code ← get_rounds contents file_num 0
          if code == 0
              then (do
                (_, points) ← test_indirect rand1 rand2 beyond1 beyond2
                pure (0, 30 + points))
              else pure (code, 0))
        else pure (code, 0)

  unfoldable pub remove_rounds : ℕ → ℕ → M State ℕ
  remove_rounds zero i = pure 0
  remove_rounds (suc n) i =
      let rest = remove_rounds n (i + 1) in
      do
        r ← ec.remove (i + 2)
        expect (is_ok r) 1 (do (_, a) ← ec.getattr (i + 2); expect (a.type == 0) 2 rest)

  unfoldable pub test_remove : M State (ℕ × ℕ)
  test_remove = do code ← remove_rounds file_num 0; pure (code, if code == 0 then 20 else 0)

  -- The score that `main` prints.
  unfoldable pub tester :
      (ℕ → ℕ) → (ℕ → ℕ) → (ℕ → ℕ) → (ℕ → ℕ) → (ℕ → ℕ) → Bytes → Bytes → M State ℕ
  tester rand memory rand' rand1 rand2 beyond1 beyond2 = do
    (code, score) ← test_create_and_getattr rand
    if code == 0
        then (do
          (code, points) ← test_put_and_get memory rand' rand1 rand2 beyond1 beyond2
          if code == 0
              then (do (_, last) ← test_remove; pure (score + points + last))
              else pure (score + points))
        else pure score
