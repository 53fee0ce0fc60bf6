-- ===== src/Directory/Fuel.antt =====
-- The loop of `readdir` (yfs_client.cc) ends: each round takes a byte of the stream at least.
use se.Base.{
  ℕ, zero, suc, ◌+◌, ◌≤◌, ◌<◌, ◌≡◌, ◌≢◌, Bytes, List, [], ◌∷◌, Bool, true, false, arith, some, none,
  Option, length, Bool-cases, inl, inr,
}
use se.Directory.{
  Dirent, Outcome, finished, undefined, out_of_fuel, Stream, cut, getline, some_bytes, add_entry,
  atoi, parse, parse_entries,
}

cut_shorter : (s : Bytes) → length (cut s).0 + length (cut s).1 ≤ length s
unfolding cut
cut_shorter [] = omega arith
cut_shorter (c ∷ s) = ground (arith, cut_shorter s)

getline_shorter : (token : Bytes) (ss : Stream) → length (getline token ss).1.rest ≤ length ss.rest
unfolding getline
getline_shorter token ss = ground (arith, cut_shorter ss.rest)

-- The first token of a round is taken from the stream.
first_shorter :
    (ss : Stream) → length (getline [] ss).0 + length (getline [] ss).1.rest ≤ length ss.rest
unfolding getline
first_shorter ss = ground (arith, cut_shorter ss.rest)

length-some_bytes : (s : Bytes) → some_bytes s ≡ true → 0 < length s
length-some_bytes [] h = ground arith
length-some_bytes (c ∷ s) h = omega arith

add_entry_ends :
    (name : Bytes) (inum : Option ℕ) (more : Bool) (next : Outcome (List Dirent))
    → next ≢ out_of_fuel
    → add_entry name inum more next ≢ out_of_fuel
unfolding add_entry
add_entry_ends name none more next h e = ground arith
add_entry_ends name (some inum) false next h e = ground arith
add_entry_ends name (some inum) true (finished es) h e = ground arith
add_entry_ends name (some inum) true undefined h e = ground arith
add_entry_ends name (some inum) true out_of_fuel h e = h e

parse_ends : (fuel : ℕ) (ss : Stream) → length ss.rest < fuel → parse fuel ss ≢ out_of_fuel
unfolding parse
parse_ends zero ss h = absurd (omega arith)
parse_ends (suc fuel) ss h =
    let (name, ss', _) = getline [] ss in
    let (token, ss'', more) = getline name ss' in
    elim (Bool-cases (some_bytes name)) [
      | inr empty ↦ (λ e. ground arith)
      | inl t ↦
          let rest =
            parse_ends fuel ss'' (
              omega
                (arith, first_shorter ss, getline_shorter name ss', length-some_bytes name t)) in
          rw t (add_entry_ends name (atoi token) more (parse fuel ss'') rest)
    ]

-- Reading a directory never runs out of rounds, whatever the bytes are.
pub parse_entries_ends : (text : Bytes) → parse_entries text ≢ out_of_fuel
unfolding parse_entries
parse_entries_ends text =
    parse_ends (length text + 1) (record { rest = text; good = true }) (omega arith)
