-- ===== src/Directory/Parse.antt =====
-- The entries of a directory are read back as they were printed.
use se.Base.{
  ℕ, zero, suc, ◌≤◌, ◌<◌, ◌^◌, ◌≡◌, ◌≢◌, refl, sym, ap, Bytes, List, [], ◌∷◌, ◌++◌, append_assoc,
  append-nil, Bool, true, arith, some, All, length, length-append,
}
use se.Directory.{
  Dirent, Stream, finished, slash, filename, print_entry, print_entries, atoi, cut, getline,
  add_entry, push, parse, parse_entries,
}
use se.Directory.Number.{IsDigit, filename-IsNumber, atoi-filename}

-- No byte is the slash.
abbrev pub NoSlash : Bytes → Type 0
NoSlash = All λ c. c ≢ slash

-- A name that the format can hold, with a number that fits an int.
abbrev pub IsEntry : Dirent → Type 0
IsEntry e = (e.name ≢ []) × NoSlash e.name × (e.inum < 2 ^ 31)

cut-append : (s rest : Bytes) → NoSlash s → cut (s ++ slash ∷ rest) ≡ (s, rest, true)
unfolding cut
cut-append [] rest h = refl
cut-append (c ∷ s) rest h = ground (arith, cut-append s rest h.1)

IsDigit-NoSlash : (s : Bytes) → All IsDigit s → NoSlash s
IsDigit-NoSlash [] h = tt
IsDigit-NoSlash (c ∷ s) h = (omega arith, IsDigit-NoSlash s h.1)

getline_line :
    (token s rest : Bytes)
    → NoSlash s
    → getline token (record { rest = s ++ slash ∷ rest; good = true })
      ≡ (s, record { rest = rest; good = true }, true)
unfolding getline
getline_line token s rest h = rw (cut-append s rest h)

parse_step :
    (f : ℕ) (ss ss' ss'' : Stream) (b : Bool) (e : Dirent) (token : Bytes)
    → e.name ≢ []
    → getline [] ss ≡ (e.name, ss', b)
    → getline e.name ss' ≡ (token, ss'', true)
    → atoi token ≡ some e.inum
    → parse (suc f) ss ≡ push e (parse f ss'')
unfolding parse add_entry
parse_step f ss ss' ss'' b e token h first second number = ground arith

entry_text :
    (name rest : Bytes) (inum : ℕ)
    → print_entry name inum ++ rest ≡ name ++ slash ∷ (filename inum ++ slash ∷ rest)
unfolding print_entry
entry_text name rest inum = simp append_assoc

-- One round of the loop at a printed entry.
parse-print_entry :
    (f : ℕ) (e : Dirent) (rest : Bytes)
    → IsEntry e
    → parse (suc f) (record { rest = print_entry e.name e.inum ++ rest; good = true })
      ≡ push e (parse f (record { rest = rest; good = true }))
parse-print_entry f e rest (h, noslash, small) = rw entry_text (
    parse_step f _ _ _ true e (filename e.inum) h
      (getline_line [] e.name (filename e.inum ++ slash ∷ rest) noslash)
      (getline_line e.name (filename e.inum) rest
        (IsDigit-NoSlash (filename e.inum) (filename-IsNumber e.inum).1))
      (atoi-filename e.inum small))

-- The end of the data ends the loop.
parse_end : (f : ℕ) → parse (suc f) (record { rest = []; good = true }) ≡ finished []
unfolding parse getline cut
parse_end f = refl

parse-print_entries :
    (es : List Dirent) (f : ℕ)
    → All IsEntry es
    → length es < f
    → parse f (record { rest = print_entries es; good = true }) ≡ finished es
unfolding print_entries
parse-print_entries es zero h lt = absurd (omega arith)
parse-print_entries [] (suc f) h lt = parse_end f
parse-print_entries (e ∷ es) (suc f) h lt =
    rw (parse-print_entry f e (print_entries es) h.0, parse-print_entries es f h.1 (omega arith))

length-print_entries : (es : List Dirent) → length es ≤ length (print_entries es)
unfolding print_entries print_entry
length-print_entries [] = omega arith
length-print_entries (e ∷ es) = omega (
  arith,
  length-print_entries es,
  length-append e.name (slash ∷ (filename e.inum ++ slash ∷ [])),
  length-append (e.name ++ slash ∷ (filename e.inum ++ slash ∷ [])) (print_entries es),
)

-- Reading a printed directory gives its entries back, in their order. The names are not empty
-- and have no slash, and the numbers fit an int.
pub parse_entries-print_entries :
    (es : List Dirent) → All IsEntry es → parse_entries (print_entries es) ≡ finished es
unfolding parse_entries
parse_entries-print_entries es h =
    parse-print_entries es _ h (omega (arith, length-print_entries es))

print_entries-append :
    (es ds : List Dirent) → print_entries (es ++ ds) ≡ print_entries es ++ print_entries ds
unfolding print_entries
print_entries-append [] ds = refl
print_entries-append (e ∷ es) ds = simp (print_entries-append es ds, append_assoc)

-- What `create` appends to a directory is one more entry at its end.
pub print_entries-snoc :
    (es : List Dirent) (e : Dirent)
    → print_entries es ++ print_entry e.name e.inum ≡ print_entries (es ++ e ∷ [])
print_entries-snoc es e =
    rw print_entries-append
      (ap (◌++◌ (print_entries es)) (unfold print_entries in sym (append-nil _)))
