-- ===== src/Rpc/Spell.antt =====
-- Several ints packed one behind the other, in front of the contents of a message (rpc/marshall.h).
use se.Base.{
  ℕ, zero, suc, ◌+◌, ◌-◌, ◌*◌, ◌^◌, ◌≤◌, ◌<◌, ◌≡◌, refl, ap, ◌∙◌, sym, Bytes, List, [], ◌∷◌, ◌++◌,
  true, arith, take, drop, length, All, length-append, length-drop, length-take, take-append,
  drop-append, take-append-drop, append_assoc,
}
use mathlib.Core.Path.{ap₂}
use se.Rpc.{
  Marshall, Unmarshall, Packing, PackingLaws, header_size, size_field, remaining, overwrite,
}

pub suc_sum : (n k : ℕ) → suc n + k ≡ suc (n + k)
suc_sum n k = omega arith

pub drop-nil : (n : ℕ) → drop {A = ℕ} n [] ≡ []
drop-nil zero = refl
drop-nil (suc n) = refl

pub drop-drop : (n k : ℕ) (l : Bytes) → drop (n + k) l ≡ drop k (drop n l)
drop-drop zero k l = ground arith
drop-drop (suc n) k [] = drop-nil (suc n + k) ∙ sym (drop-nil k)
drop-drop (suc n) k (x ∷ l) = ap (λ j. drop j (x ∷ l)) (suc_sum n k) ∙ drop-drop n k l

pub take_past : (xs ys : Bytes) (k : ℕ) → take (length xs + k) (xs ++ ys) ≡ xs ++ take k ys
take_past [] ys k = ground arith
take_past (x ∷ xs) ys k =
    ap (λ j. take j (x ∷ (xs ++ ys))) (suc_sum (length xs) k) ∙ ap (◌∷◌ x) (take_past xs ys k)

pub drop_past : (xs ys : Bytes) (k : ℕ) → drop (length xs + k) (xs ++ ys) ≡ drop k ys
drop_past xs ys k = drop-drop (length xs) k (xs ++ ys) ∙ ap (drop k) (drop-append xs ys)

overwrite_here :
    (pre bs rest : Bytes) (n : ℕ)
    → n ≡ length pre
    → overwrite (pre ++ rest) n bs ≡ pre ++ (bs ++ drop (length bs) rest)
overwrite_here pre bs rest n e = rw (e, take-append pre rest, drop_past pre rest (length bs)) refl

module _ (p : Packing) (laws : PackingLaws p) where
  open laws use {bytes}

  -- Several ints, one behind the other.
  unfoldable pub spell : List ℕ → Bytes
  spell [] = []
  spell (i ∷ is) = bytes i ++ spell is

  unfoldable pub pack_all : List ℕ → Marshall → Marshall
  pack_all [] m = m
  pack_all (i ∷ is) m = pack_all is (p.pack i m)

  unfoldable pub unpack_all : ℕ → Unmarshall → List ℕ × Unmarshall
  unpack_all zero u = ([], u)
  unpack_all (suc n) u = let (i, u) = p.unpack u in let (is, u) = unpack_all n u in (i ∷ is, u)

  length-spell : (is : List ℕ) → length (spell is) ≡ 4 * length is
  unfolding spell
  length-spell [] = refl
  length-spell (i ∷ is) =
      omega (arith, length-append (bytes i) (spell is), length-spell is, laws.width i)

  rest_behind : (k n : ℕ) (rest : Bytes) → drop (4 * n) (drop k rest) ≡ drop (k + 4 * n) rest
  rest_behind k n rest = sym (drop-drop k (4 * n) rest)

  moved :
      (m : Marshall) (b c : Bytes) (i j : ℕ)
      → b ≡ c
      → i ≡ j
      → ◌≡◌ {A = Marshall} (record m { buf = b; ind = i }) (record m { buf = c; ind = j })
  moved m b c i j e f = ap₂ (λ x k. record m { buf = x; ind = k }) e f

  pack_step :
      (i : ℕ) (m : Marshall) (pre rest : Bytes)
      → i < 2 ^ 32
      → m.buf ≡ pre ++ rest
      → m.ind ≡ length pre
      → 4 ≤ length rest
      → p.pack i m ≡ record m { buf = pre ++ (bytes i ++ drop 4 rest); ind = m.ind + 4 }
  pack_step i m pre rest small e at room =
      laws.pack_law i m small (omega (arith, ap length e, at, room, length-append pre rest))
      ∙ ap (λ b. record m { buf = b; ind = m.ind + 4 })
          (ap (λ b. overwrite b m.ind (bytes i)) e
            ∙ overwrite_here pre (bytes i) rest m.ind at
            ∙ ap (λ n. pre ++ (bytes i ++ drop n rest)) (laws.width i))

  pack_all_lem :
      (is : List ℕ) (m : Marshall) (pre rest : Bytes)
      → All (λ i. i < 2 ^ 32) is
      → m.buf ≡ pre ++ rest
      → m.ind ≡ length pre
      → 4 * length is ≤ length rest
      → pack_all is m ≡ record m {
        buf = pre ++ (spell is ++ drop (4 * length is) rest);
        ind = m.ind + 4 * length is;
      }
  unfolding pack_all spell
  pack_all_lem [] m pre rest small e at room = moved m m.buf _ m.ind _ e (omega arith)
  pack_all_lem (i ∷ is) m pre rest small e at room =
      ap (pack_all is) (pack_step i m pre rest small.0 e at (omega (arith, room)))
      ∙ pack_all_lem is (record m { buf = pre ++ (bytes i ++ drop 4 rest); ind = m.ind + 4 })
          (pre ++ bytes i) (drop 4 rest) small.1 (sym (append_assoc pre (bytes i) (drop 4 rest)))
          (omega (arith, at, length-append pre (bytes i), laws.width i))
          (omega (arith, room, length-drop 4 rest))
      ∙ moved m _ _ _ _
          (append_assoc pre (bytes i) _
            ∙ ap (λ b. pre ++ b)
                (ap (λ b. bytes i ++ (spell is ++ b))
                    (rest_behind 4 (length is) rest ∙ ap (λ n. drop n rest) (omega arith))
                  ∙ sym (append_assoc (bytes i) (spell is) _)))
          (omega arith)

  after_int :
      (i : ℕ) (u : Unmarshall) (rest : Bytes)
      → remaining u ≡ bytes i ++ rest
      → remaining (record u { ind = u.ind + 4 }) ≡ rest
  after_int i u rest e =
      drop-drop u.ind 4 (take u.sz u.buf)
      ∙ ap (drop 4) e
      ∙ ap (λ n. drop n (bytes i ++ rest)) (sym (laws.width i))
      ∙ drop-append (bytes i) rest

  pub unpack_all_lem :
      (is : List ℕ) (u : Unmarshall) (rest : Bytes)
      → All (λ i. i < 2 ^ 32) is
      → u.ok ≡ true
      → remaining u ≡ spell is ++ rest
      → unpack_all (length is) u ≡ (is, record u { ind = u.ind + 4 * length is })
  unfolding unpack_all spell
  unpack_all_lem [] u rest small good e = ap (λ k. ([], record u { ind = k })) (omega arith)
  unpack_all_lem (i ∷ is) u rest small good e =
      let e' : remaining u ≡ bytes i ++ (spell is ++ rest) =
        e ∙ append_assoc (bytes i) (spell is) rest in
      let u' : Unmarshall = record u { ind = u.ind + 4 } in
      ap (λ q. (q.0 ∷ (unpack_all (length is) q.1).0, (unpack_all (length is) q.1).1))
        (laws.unpack_law i u (spell is ++ rest) small.0 good e')
      ∙ ap (λ q. (i ∷ q.0, q.1)) (unpack_all_lem is u' rest small.1 good (after_int i u _ e'))
      ∙ ap (λ k. (i ∷ is, record u { ind = k })) (omega arith)

  -- The buffer with a header of some ints in front of its contents.
  abbrev pub front : List ℕ → Bytes → Bytes
  front is buf = take 4 buf ++ (spell is ++ drop (4 * length is) (drop 4 buf))

  -- What a header of n ints in front of the contents leaves of the buffer.
  pub packed :
      (is : List ℕ) (m : Marshall)
      → All (λ i. i < 2 ^ 32) is
      → 4 + 4 * length is ≤ length m.buf
      → pack_all is (record m { ind = size_field })
        ≡ record m { buf = front is m.buf; ind = 4 + 4 * length is }
  packed is m small room =
      pack_all_lem is (record m { ind = size_field }) (take 4 m.buf) (drop 4 m.buf) small
        (sym (take-append-drop 4 m.buf)) (omega (arith, length-take 4 m.buf, room))
        (omega (arith, length-drop 4 m.buf, room))

  -- The contents are as they were.
  pub packed-content :
      (is : List ℕ) (buf : Bytes)
      → 4 + 4 * length is ≤ length buf
      → length is ≤ 5
      → drop header_size (front is buf) ≡ drop header_size buf
  packed-content is buf room few =
      let n : ℕ = 4 * length is in
      let four : length (take 4 buf) ≡ 4 = omega (arith, length-take 4 buf, room) in
      let split : header_size ≡ length (take 4 buf) + (length (spell is) + (20 - n)) =
        omega (arith, four, length-spell is, few) in
      let whole : 4 + (n + (20 - n)) ≡ header_size = omega (arith, few) in
      ap (λ k. drop k (take 4 buf ++ (spell is ++ drop n (drop 4 buf)))) split
      ∙ drop_past (take 4 buf) _ (length (spell is) + (20 - n))
      ∙ drop_past (spell is) _ (20 - n)
      ∙ sym (drop-drop n (20 - n) (drop 4 buf))
      ∙ sym (drop-drop 4 (n + (20 - n)) buf)
      ∙ ap (λ k. drop k buf) whole

  -- A reader of the buffer finds the ints.
  pub packed-remaining :
      (is : List ℕ) (buf : Bytes) (u : Unmarshall)
      → 4 + 4 * length is ≤ length buf
      → 4 + 4 * length is ≤ u.sz
      → u.buf ≡ front is buf
      → remaining (record u { ind = size_field })
        ≡ spell is ++ take (u.sz - (4 + 4 * length is)) (drop (4 * length is) (drop 4 buf))
  packed-remaining is buf u room long e =
      let n : ℕ = 4 * length is in
      let four : length (take 4 buf) ≡ 4 = omega (arith, length-take 4 buf, room) in
      let back : Bytes = drop n (drop 4 buf) in
      ap (λ b. drop 4 (take u.sz b)) e
      ∙ ap (λ k. drop 4 (take k (take 4 buf ++ (spell is ++ back))))
          (omega (arith, four, length-spell is, long))
      ∙ ap (drop 4) (
          take_past (take 4 buf) _ (length (spell is) + (u.sz - (4 + n)))
          ∙ ap (λ b. take 4 buf ++ b) (take_past (spell is) back (u.sz - (4 + n))))
      ∙ ap (λ k. drop k (take 4 buf ++ (spell is ++ take (u.sz - (4 + n)) back))) (sym four)
      ∙ drop-append (take 4 buf) _
