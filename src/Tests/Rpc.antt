-- ===== src/Tests/Rpc.antt =====
-- Messages, remote calls and the extent server behind the RPC library of Wires.
use se.Base.{
  ℕ, ◌+◌, ◌≤◌, ◌≡◌, refl, ap, Bytes, List, [], ◌∷◌, ◌++◌, true, arith, Option, some, none, M, ltb,
  ◌==◌, if◌then◌else◌,
}
use se.Disk.{Store}
use se.BlockManager.Count.{free_count}
use se.InodeManager.{Attr, t_dir}
use se.InodeManager.Stores.{blocks_for}
use se.InodeManager.Loops.{rounds}
use se.Extent.State.{view, IsGood}
use se.Rpc.{ℤ, Marshall, Unmarshall, new_marshall, get_content, remaining}
use se.Rpc.Wire.{Wire, write_vector, read_vector, write_map, read_map, attr_wire}
use se.Rpc.Vectors.{read_vector-write_vector}
use se.Rpc.Maps.{Ascends, read_map-write_map}
use se.Rpc.Buffers.{take_content-remaining}
use se.Rpc.Fifo.{
  Fifo, Condition, Pass, new_fifo, enq, deq, Runs, IsOrdered, Runs-IsOrdered, deq_wakes,
}
use se.Rpc.Calls.{call_one, call_two, call_seven}
use se.Rpc.Handlers.{Handler, handle_one, handle_seven}
use se.Rpc.Transparency.{call_one-handle_one}
use se.Rpc.Arguments.{call_seven-handle_seven}
use se.Rpc.Server.{
  get_number, put_number, getattr_number, remove_number, get_handler, put_handler, getattr_handler,
  remove_handler, register, register-handlers, TableLaws, remote_get-remote_put,
}
use se.Tests.Wires.{
  number_wire, number_laws, number_words, string_wire, string_laws, done, done-SaysDone, local_call,
  local-Delivers, memory, memory_room, received,
}
use se.Tests.System.{booted, booted-IsGood, booted-view, booted-free}

abbrev pub fresh : Marshall
fresh = new_marshall memory

fresh_content : get_content fresh ≡ []
unfolding get_content
fresh_content = refl

abbrev pub three : List ℕ
three = 5 ∷ 6 ∷ 7 ∷ []

read_vector-write_vector_example :
    (after : Unmarshall) × (read_vector number_wire number_wire
        (9 ∷ [])
        (received (get_content (write_vector number_wire number_wire three fresh)))
      ≡ (9 ∷ 5 ∷ 6 ∷ 7 ∷ [], after))
    × (after.ok ≡ true)
    × (remaining after ≡ [])
read_vector-write_vector_example =
    read_vector-write_vector number_laws number_laws three (9 ∷ []) fresh
      (received (get_content (write_vector number_wire number_wire three fresh))) number_words
      (tt, (tt, (tt, tt))) (omega arith) (omega arith, memory_room) fresh_content
      (take_content-remaining memory _ _ memory_room).1
      (take_content-remaining memory _ _ memory_room).0

abbrev pub some_pairs : List (ℕ × Bytes)
some_pairs = (1, b'a' ∷ []) ∷ (2, []) ∷ []

ascending : Ascends ltb some_pairs
unfolding Ascends
ascending = (((refl, refl), tt), (tt, tt))

read_map-write_map_example :
    (after : Unmarshall) × (read_map ltb number_wire number_wire string_wire [] (
        received (get_content (write_map ltb number_wire number_wire string_wire some_pairs fresh)))
      ≡ (some_pairs, after))
    × (after.ok ≡ true)
    × (remaining after ≡ [])
read_map-write_map_example =
    read_map-write_map ltb number_laws number_laws string_laws some_pairs [] fresh
      (received (get_content (write_map ltb number_wire number_wire string_wire some_pairs fresh)))
      number_words ascending ((tt, tt), ((tt, tt), tt)) (omega arith) (omega arith, memory_room)
      fresh_content (take_content-remaining memory _ _ memory_room).1
      (take_content-remaining memory _ _ memory_room).0

-- A method that counts its calls and adds.
abbrev pub add : ℕ → ℕ → M ℕ (ℤ × ℕ)
add a old count = some ((ℤ.pos 0, a + 1), count + 1)

abbrev pub add_table : ℕ → Handler ℕ
add_table proc = handle_one done number_wire number_wire add

call_one-handle_one_example :
    call_one (local_call add_table) done memory number_wire number_wire 3 41 7 0 10
    ≡ some ((ℤ.pos 0, 42), 11)
call_one-handle_one_example =
    call_one-handle_one (local_call add_table) done number_laws number_laws memory add 3 0 41
      (ℤ.pos 0) 42 10 11 done-SaysDone (local-Delivers add_table 3) memory_room tt tt refl refl

abbrev pub sum : ℕ → ℕ → ℕ → ℕ → ℕ → ℕ → ℕ → ℕ → M ℕ (ℤ × ℕ)
sum a b c d e f g old count = some ((ℤ.pos 2, a + b + c + d + e + f + g), count + 1)

abbrev pub sum_table : ℕ → Handler ℕ
sum_table proc =
    handle_seven done number_wire number_wire number_wire number_wire number_wire number_wire
      number_wire number_wire sum

call_seven-handle_seven_example :
    call_seven
      (local_call sum_table)
      done
      memory
      number_wire
      number_wire
      number_wire
      number_wire
      number_wire
      number_wire
      number_wire
      number_wire
      3
      1
      2
      3
      4
      5
      6
      7
      7
      0
      10
    ≡ some ((ℤ.pos 2, 28), 11)
call_seven-handle_seven_example =
    call_seven-handle_seven (local_call sum_table) done number_laws memory 3 0 number_laws
      number_laws number_laws number_laws number_laws number_laws number_laws sum 1 2 3 4 5 6 7
      (ℤ.pos 2) 28 10 11 done-SaysDone (local-Delivers sum_table 3) memory_room tt tt tt tt tt tt tt
      tt refl refl

abbrev pub attributes : Wire Attr
attributes = attr_wire number_wire

-- The handlers of the extent server, in a table that is a function.
abbrev pub file_under :
    ℕ → Handler Store → (ℕ → Option (Handler Store)) → ℕ → Option (Handler Store)
file_under p h t q = if q == p then some h else t q

file_under-TableLaws :
    TableLaws done number_wire number_wire string_wire attributes file_under (λ t q. t q)
file_under-TableLaws = record {
  here = λ p h t. ground arith;
  elsewhere = λ p q h t differ. ground arith;
}

register-handlers_example :
    (register done number_wire number_wire string_wire attributes file_under (λ q. none) get_number
      ≡ some (get_handler done number_wire number_wire string_wire attributes))
    × (register done number_wire number_wire string_wire attributes file_under
          (λ q. none)
          getattr_number
        ≡ some (getattr_handler done number_wire number_wire string_wire attributes))
    × (register done number_wire number_wire string_wire attributes file_under
          (λ q. none)
          put_number
        ≡ some (put_handler done number_wire number_wire string_wire attributes))
    × (register done number_wire number_wire string_wire attributes file_under
          (λ q. none)
          remove_number
        ≡ some (remove_handler done number_wire number_wire string_wire attributes))
    × (register done number_wire number_wire string_wire attributes file_under (λ q. none) 5 ≡ none)
register-handlers_example =
    register-handlers done number_wire number_wire string_wire attributes file_under (λ t q. t q)
      (λ q. none) 5 file_under-TableLaws (λ e. ground arith) (λ e. ground arith) (λ e. ground arith)
      (λ e. ground arith)

abbrev pub extent_table : ℕ → Handler Store
extent_table q =
    if q == get_number
    then get_handler done number_wire number_wire string_wire attributes
    else put_handler done number_wire number_wire string_wire attributes

root_there : view booted 1 ≡ some (record { type = t_dir; content = [] })
root_there = ap (λ v. v 1) booted-view

small_file : blocks_for 1 ≤ free_count booted
unfolding blocks_for rounds
small_file = omega (arith, booted-free)

remote_get-remote_put_example :
    (t u : Store) × (call_two
        (local_call extent_table)
        done
        memory
        number_wire
        number_wire
        string_wire
        put_number
        1
        (b'x' ∷ [])
        7
        0
        booted
      ≡ some ((ℤ.pos 0, 7), t))
    × (call_one (local_call extent_table) done memory string_wire number_wire get_number 1 [] 0 t
        ≡ some ((ℤ.pos 0, b'x' ∷ []), u))
    × IsGood u
remote_get-remote_put_example =
    remote_get-remote_put done number_wire number_wire string_wire attributes
      (local_call extent_table) number_laws number_laws string_laws memory 1 0 (b'x' ∷ [])
      (record { type = t_dir; content = [] }) booted done-SaysDone
      (local-Delivers extent_table put_number) (local-Delivers extent_table get_number) memory_room
      tt tt tt booted-IsGood root_there (omega arith) small_file

-- Two elements come in, and one goes out.
abbrev pub after_two : Fifo ℕ
after_two = (enq 6 true (enq 5 true (new_fifo 2)).1).1

two_in : Runs 2 after_two (5 ∷ 6 ∷ []) []
unfolding enq
two_in = Runs.enqs 6 true (Runs.enqs 5 true Runs.start)

Runs-IsOrdered_example : IsOrdered 2 after_two (5 ∷ 6 ∷ []) []
Runs-IsOrdered_example = Runs-IsOrdered two_in

deq_wakes_example :
    ((deq after_two).0 ≡ Pass.returns 5 (Condition.has_space ∷ []))
    × ◌≡◌ {A = List ℕ} (5 ∷ 6 ∷ []) (([] ++ 5 ∷ []) ++ 6 ∷ [])
unfolding enq
deq_wakes_example = deq_wakes 5 (6 ∷ []) (λ e. ground arith) two_in refl
