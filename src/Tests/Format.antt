-- ===== src/Tests/Format.antt =====
-- The format of a directory and the contents of a file, at concrete inputs.
use se.Base.{◌≡◌, ◌≢◌, refl, Bytes, List, [], ◌∷◌, arith, length, All, get_or}
use se.Directory.{
  Dirent, finished, out_of_fuel, filename, print_entry, print_entries, parse_entries, digits,
}
use se.Directory.Parse.{IsEntry, parse_entries-print_entries}
use se.Directory.Fuel.{parse_entries_ends}
use se.Content.{resize, splice}
use se.Content.Write.{get_or-splice, get_or-resize}

abbrev pub name_a : Bytes
name_a = b'a' ∷ []

abbrev pub name_b : Bytes
name_b = b'b' ∷ b'c' ∷ []

abbrev pub two_entries : List Dirent
two_entries = record { name = name_a; inum = 2 } ∷ record { name = name_b; inum = 13 } ∷ []

pub two_entries-IsEntry : All IsEntry two_entries
two_entries-IsEntry = (
  ((λ e. ground arith), ((λ e. ground arith), tt), omega arith),
  (((λ e. ground arith), ((λ e. ground arith), ((λ e. ground arith), tt)), omega arith), tt),
)

print_two :
    print_entries two_entries
    ≡ b'a' ∷ b'/' ∷ b'2' ∷ b'/' ∷ b'b' ∷ b'c' ∷ b'/' ∷ b'1' ∷ b'3' ∷ b'/' ∷ []
unfolding print_entries print_entry filename digits
print_two = refl

parse_entries-print_entries_example :
    parse_entries (print_entries two_entries) ≡ finished two_entries
parse_entries-print_entries_example = parse_entries-print_entries two_entries two_entries-IsEntry

parse_entries_ends_example : parse_entries (b'x' ∷ []) ≢ out_of_fuel
parse_entries_ends_example = parse_entries_ends (b'x' ∷ [])

abbrev text : Bytes
text = b'1' ∷ b'2' ∷ b'3' ∷ []

get_or-splice_example : get_or (splice text 1 name_b) 2 0 ≡ b'c'
get_or-splice_example = get_or-splice text 1 name_b 2

get_or-resize_example : (length (resize text 3 5) ≡ 5) × (get_or (resize text 3 5) 4 0 ≡ 0)
get_or-resize_example = get_or-resize text 5 4
