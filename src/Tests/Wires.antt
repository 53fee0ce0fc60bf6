-- ===== src/Tests/Wires.antt =====
-- An RPC library in memory: a number is one entry of a message, a string its length and its bytes,
-- and a call hands the message over to the handler in a table.
use se.Base.{
  ℕ, suc, ◌+◌, ◌≤◌, ◌≡◌, refl, ap, ◌∙◌, Bytes, [], ◌∷◌, ◌++◌, Bool, true, false, arith, Option,
  some, none, M, take, drop, replicate, length, length-replicate, take-append, drop-append, ◌==◌,
  ◌&&◌,
}
use se.Rpc.{
  ℤ, Marshall, Unmarshall, new_marshall, empty_unmarshall, header_size, get_content, take_content,
  remaining, overwrite,
}
use se.Rpc.Wire.{Wire, WireLaws, Reads}
use se.Rpc.Vectors.{CarriesWords}
use se.Rpc.Buffers.{overwrite-Appends, take_content-remaining, remaining-skip}
use se.Rpc.Handlers.{Handler}
use se.Rpc.Transparency.{Delivers, SaysDone}

abbrev pub put_bytes : Bytes → Marshall → Marshall
put_bytes bs m = record m { buf = overwrite m.buf m.ind bs; ind = m.ind + length bs }

abbrev pub skip : ℕ → Unmarshall → Unmarshall
skip k u = record u { ind = u.ind + k }

abbrev pub failed : Unmarshall → Unmarshall
failed u = record u { ok = false }

abbrev pub number_in : ℕ → Unmarshall → Bytes → ℕ × Unmarshall
number_in old u [] = (old, failed u)
number_in old u (n ∷ rest) = (n, skip 1 u)

abbrev pub number_wire : Wire ℕ
number_wire = record {
  blank = 7;
  write = λ n m. put_bytes (n ∷ []) m;
  read = λ old u. number_in old u (remaining u);
}

pub number_read :
    (n : ℕ) (u : Unmarshall) (rest : Bytes)
    → u.ok ≡ true
    → remaining u ≡ n ∷ rest
    → Reads number_wire u n rest
number_read n u rest good e = record {
  after = skip 1 u;
  result = ap (number_in 7 u) e;
  ok = good;
  behind = remaining-skip u 1 ∙ ap (drop 1) e;
}

abbrev pub number_laws : WireLaws number_wire
number_laws = record {
  Fits = λ n. Unit {0};
  bytes = λ n. n ∷ [];
  write_law = λ n m h r. overwrite-Appends m (n ∷ []) r;
  read_law = λ n u rest h good e. number_read n u rest good e;
}

pub number_words : CarriesWords number_laws
unfolding CarriesWords
number_words n h = tt

abbrev pub string_in : Bytes → Unmarshall → Bytes → Bytes × Unmarshall
string_in old u [] = (old, failed u)
string_in old u (n ∷ rest) = (take n rest, skip (1 + n) u)

abbrev pub string_wire : Wire Bytes
string_wire = record {
  blank = [];
  write = λ s m. put_bytes (length s ∷ s) m;
  read = λ old u. string_in old u (remaining u);
}

pub string_read :
    (s : Bytes) (u : Unmarshall) (rest : Bytes)
    → u.ok ≡ true
    → remaining u ≡ length s ∷ (s ++ rest)
    → Reads string_wire u s rest
string_read s u rest good e = record {
  after = skip (1 + length s) u;
  result = ap (string_in [] u) e ∙ ap (λ b. (b, skip (1 + length s) u)) (take-append s rest);
  ok = good;
  behind = remaining-skip u (1 + length s) ∙ ap (drop (1 + length s)) e ∙ behind;
}
  where
    one_more : 1 + length s ≡ suc (length s)
    one_more = omega arith

    behind : drop (1 + length s) (length s ∷ (s ++ rest)) ≡ rest
    behind = ap (λ k. drop k (length s ∷ (s ++ rest))) one_more ∙ drop-append s rest

abbrev pub string_laws : WireLaws string_wire
string_laws = record {
  Fits = λ s. Unit {0};
  bytes = λ s. length s ∷ s;
  write_law = λ s m h r. overwrite-Appends m (length s ∷ s) r;
  read_law = λ s u rest h good e. string_read s u rest good e;
}

abbrev pub done : Unmarshall → Bool
done u = u.ok && (length (remaining u) == 0)

pub done-SaysDone : SaysDone done
done-SaysDone u good e = ground (arith, good, ap length e)

-- A call of a handler in this process.
abbrev pub memory : Bytes
memory = replicate {A = ℕ} 1024 0

abbrev pub received : Bytes → Unmarshall
received s = take_content memory s empty_unmarshall

abbrev pub answered : {S : Type 0} → Option ((ℤ × Marshall) × S) → Option ((ℤ × Unmarshall) × S)
answered none = none
answered (some ((b, reply), t)) = some ((b, received (get_content reply)), t)

abbrev pub local_call :
    {S : Type 0} → (ℕ → Handler S) → ℕ → Marshall → Unmarshall → ℕ → M S (ℤ × Unmarshall)
local_call table proc req u to s =
    answered (table proc (received (get_content req)) (new_marshall memory) s)

room : header_size ≤ length ([] ++ memory)
room = omega (arith, length-replicate {A = ℕ} 1024 0)

pub memory_room : header_size ≤ length memory
memory_room = omega (arith, length-replicate {A = ℕ} 1024 0)

pub local-Delivers :
    {S : Type 0} (table : ℕ → Handler S) (proc : ℕ) → Delivers (local_call table) proc (table proc)
local-Delivers table proc = record {
  args = λ req. received (get_content req);
  ret = new_marshall memory;
  args_ok = λ req. (take_content-remaining memory (get_content req) empty_unmarshall room).1;
  args_content = λ req. (take_content-remaining memory (get_content req) empty_unmarshall room).0;
  ret_ready = (omega arith, memory_room);
  ret_content = unfold get_content in refl;
  answer = λ req to b reply s t h k e. (
    received (get_content reply),
    ap answered e,
    (take_content-remaining memory (get_content reply) empty_unmarshall room).1,
    (take_content-remaining memory (get_content reply) empty_unmarshall room).0,
  );
}
