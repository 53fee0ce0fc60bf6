-- ===== src/Directory.antt =====
-- The contents of a directory (yfs_client.cc): `name/inum/` for each entry, as `create` and its
-- like print it and `readdir` reads it back.
pub mod Number
pub mod Parse
pub mod Find
pub mod Fuel
use se.Base.{
  ℕ, zero, suc, ◌+◌, ◌-◌, ◌*◌, ◌/◌, ◌%◌, ◌^◌, Bytes, List, [], ◌∷◌, ◌++◌, Bool, true, false, ◌&&◌,
  ◌||◌, ltb, leb, ◌==◌, if◌then◌else◌, length, Option, none, some,
}

-- yfs_client::dirent
pub record Dirent : Type 0 where
  pub name : Bytes
  pub inum : ℕ

abbrev pub slash : ℕ
slash = b'/'

-- `ost << inum`: the decimal digits, with fuel for their number. 2 ^ 64 has 20 digits.
unfoldable pub digits : ℕ → ℕ → Bytes
digits zero n = []
digits (suc f) n =
    let rest = digits f (n / 10) ++ (b'0' + n % 10) ∷ [] in
    if ltb n 10 then (b'0' + n) ∷ [] else rest

-- yfs_client::filename
unfoldable pub filename : ℕ → Bytes
unfolding digits
filename inum = digits 20 inum

-- `ss << name << "/" << inum << "/"`
unfoldable pub print_entry : Bytes → ℕ → Bytes
unfolding filename
print_entry name inum = name ++ slash ∷ (filename inum ++ slash ∷ [])

-- The loop of `unlink` that prints the list.
unfoldable pub print_entries : List Dirent → Bytes
unfolding print_entry
print_entries [] = []
print_entries (e ∷ es) = print_entry e.name e.inum ++ print_entries es

abbrev pub is_digit : ℕ → Bool
is_digit c = leb b'0' c && leb c b'9'

abbrev is_space : ℕ → Bool
is_space c = c == 32 || (leb 9 c && leb c 13)

-- The number that the digits at the front spell behind `acc`.
unfoldable pub leading : Bytes → ℕ → ℕ
leading [] acc = acc
leading (c ∷ s) acc =
    let rest = leading s (acc * 10 + (c - b'0')) in if is_digit c then rest else acc

unfoldable pub skip_spaces : Bytes → Bytes
skip_spaces [] = []
skip_spaces (c ∷ s) = if is_space c then skip_spaces s else c ∷ s

-- `inum = atoi(token)`: an int, as an unsigned 64-bit number. `none` is a number that does not fit
-- an int, where `atoi` is undefined.
unfoldable pub signed : Bytes → Option ℕ
unfolding leading
signed [] = some 0
signed (c ∷ s) =
    if c == b'-'
    then (if leb (leading s 0) (2 ^ 31) then some ((2 ^ 64 - leading s 0) % 2 ^ 64) else none)
    else (let n = leading (if c == b'+' then s else c ∷ s) 0 in
        if ltb n (2 ^ 31) then some n else none)

unfoldable pub atoi : Bytes → Option ℕ
unfolding skip_spaces signed
atoi s = signed (skip_spaces s)

-- An istringstream: what is left, and whether no end of file was met.
pub record Stream : Type 0 where
  pub rest : Bytes
  pub good : Bool

-- What `getline` takes up to a slash: the token, what is left, and whether the slash was found.
unfoldable pub cut : Bytes → Bytes × Bytes × Bool
cut [] = ([], [], false)
cut (c ∷ s) =
    let (token, rest, found) = cut s in
    if c == slash then ([], s, true) else (c ∷ token, rest, found)

abbrev some_bytes : Bytes → Bool
some_bytes [] = false
some_bytes (c ∷ s) = true

-- `std::getline(ss, token, '/')`: the token, the stream and whether it did not fail. On a stream
-- that has ended it leaves the token alone; at the end of the data it fails if it took nothing.
unfoldable pub getline : Bytes → Stream → Bytes × Stream × Bool
getline token ss =
    let (line, rest, found) = cut ss.rest in
    if ss.good
    then (line, record { rest = rest; good = found }, found || some_bytes line)
    else (token, ss, false)

-- How the loop of `readdir` ends. `undefined` is an `atoi` out of range.
pub data Outcome (A : Type 0) : Type 0 where
  finished : A → Outcome A
  undefined : Outcome A
  out_of_fuel : Outcome A

abbrev pub push : Dirent → Outcome (List Dirent) → Outcome (List Dirent)
push e (finished es) = finished (e ∷ es)
push e undefined = undefined
push e out_of_fuel = out_of_fuel

-- One entry: `inum` is the value of the second token, and `more` the flag of the loop.
unfoldable pub add_entry : Bytes → Option ℕ → Bool → Outcome (List Dirent) → Outcome (List Dirent)
add_entry name none more next = undefined
add_entry name (some inum) true next = push (record { name = name; inum = inum }) next
add_entry name (some inum) false next = finished (record { name = name; inum = inum } ∷ [])

-- The loop of `readdir`. Each round takes a byte at least.
unfoldable pub parse : ℕ → Stream → Outcome (List Dirent)
parse zero ss = out_of_fuel
parse (suc fuel) ss =
    let (name, ss', _) = getline [] ss in
    let (token, ss'', more) = getline name ss' in
    let next = parse fuel ss'' in
    if some_bytes name then add_entry name (atoi token) more next else finished []

unfoldable pub parse_entries : Bytes → Outcome (List Dirent)
parse_entries text = parse (length text + 1) (record { rest = text; good = true })

-- `iter->name == std::string(name)`
unfoldable pub same_name : Bytes → Bytes → Bool
same_name [] [] = true
same_name [] (d ∷ t) = false
same_name (c ∷ s) [] = false
same_name (c ∷ s) (d ∷ t) = c == d && same_name s t

-- The loop of `lookup`.
unfoldable pub find : Bytes → List Dirent → Option ℕ
unfolding same_name
find name [] = none
find name (e ∷ es) = if same_name e.name name then some e.inum else find name es

-- The loop of `unlink` that erases the first entry of that name.
unfoldable pub erase : Bytes → List Dirent → List Dirent
unfolding same_name
erase name [] = []
erase name (e ∷ es) = if same_name e.name name then es else e ∷ erase name es
