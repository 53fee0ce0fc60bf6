-- ===== src/Yfs/Create.antt =====
-- `create` and `mkdir` of yfs_client.cc on the table of files.
use se.Base.{
  ℕ, ◌+◌, ◌^◌, ◌≤◌, ◌<◌, ◌≡◌, ◌≢◌, ap, ◌∙◌, sym, Bytes, List, [], ◌∷◌, ◌++◌, Bool, true, false,
  arith, some, none, Option, ◌==◌, if◌then◌else◌, length, length-append, All, All-append,
}
use se.InodeManager.{t_dir}
use se.Extent.{Status, ExtentClient}
use se.Spec.{File, Files, put_file, Laws}
use se.Directory.{Dirent, slash, filename, print_entry, print_entries, find}
use se.Directory.Number.{length-filename}
use se.Directory.Find.{find-snoc}
use se.Directory.Parse.{IsEntry, NoSlash, parse_entries-print_entries, print_entries-snoc}
use se.Yfs.{lookup, make, add_to_parent, found_inum}
use se.Yfs.Lookup.{IsDir, Same, lookup-IsDir}

pub distinct :
    (v : Files) {inum parent : ℕ} (f : File) → v inum ≡ none → v parent ≡ some f → inum ≢ parent
distinct v f a b e = ground (arith, sym a ∙ (ap v e ∙ b))

put_other :
    (v w : Files) (inum parent : ℕ) (f : Option File)
    → w ≡ put_file v inum f
    → inum ≢ parent
    → w parent ≡ v parent
put_other v w inum parent f e other = ap (λ x. x parent) e ∙ ground arith

two_files :
    (v0 v1 v2 : Files) (inum parent : ℕ) (d f : Option File) (j : ℕ)
    → v1 ≡ put_file v0 inum f
    → v2 ≡ put_file v1 parent d
    → v2 j ≡ (if parent == j then d else if inum == j then f else v0 j)
two_files v0 v1 v2 inum parent d f j a b = ap (λ v. v j) b ∙ ground (arith, ap (λ v. v j) a)

module _ (ec : ExtentClient) (laws : Laws ec) where
  open ec use {State}
  open laws use {IsGood, view, room, slots, cost, max_len}

  taken_step :
      (type parent : ℕ) (name : Bytes) (exist : Bool) (ino_out : ℕ) (s : State) {t : State}
      {r : Status} {inum : ℕ}
      → lookup ec parent name exist ino_out s ≡ some ((r, true, inum), t)
      → make ec type parent name exist ino_out s ≡ some ((Status.exist, inum), t)
  unfolding make
  taken_step type parent name exist ino_out s e = ground arith

  -- A name that the directory has is refused with EXIST and the number of its first entry, and
  -- nothing changes. It holds for `create` and `mkdir`, whatever was in the variables.
  pub make_taken :
      (s : State) (type parent : ℕ) (text : Bytes) (es : List Dirent) (name : Bytes) (exist : Bool)
      (ino_out inum : ℕ)
      → IsGood s
      → IsDir ec laws s parent text es
      → find name es ≡ some inum
      → (t : State) × (make ec type parent name exist ino_out s ≡ some ((Status.exist, inum), t))
        × Same ec laws s t
  make_taken s type parent text es name exist ino_out inum g d e =
      let (t, e', same) = lookup-IsDir ec laws s parent text es name exist ino_out g d in
      (t, taken_step type parent name exist ino_out s (rw e at e'), same)

  made_step :
      (type parent : ℕ) (name : Bytes) (exist : Bool) (ino_out : ℕ) (s : State) {t u v w : State}
      {r : Status} {old inum : ℕ} {buf : Bytes}
      → lookup ec parent name exist ino_out s ≡ some ((r, false, old), t)
      → ec.create type t ≡ some ((Status.ok, inum), u)
      → ec.get parent u ≡ some ((Status.ok, buf), v)
      → ec.put parent (buf ++ print_entry name inum) v ≡ some (Status.ok, w)
      → make ec type parent name exist ino_out s ≡ some ((Status.ok, inum), w)
  unfolding make add_to_parent
  made_step type parent name exist ino_out s a b c d = ground arith

  length-print_entry : (name : Bytes) (inum : ℕ) → length (print_entry name inum) ≤ length name + 22
  unfolding print_entry
  length-print_entry name inum = omega (
    arith,
    length-append name (slash ∷ (filename inum ++ slash ∷ [])),
    length-append (filename inum) (slash ∷ []),
    length-filename inum,
  )

  -- A new name: `make` answers OK with a number that no file had. Afterwards the directory has one
  -- more entry at its end, of this name and number, the number is an empty file of the type, and
  -- every other file is as before; the room left shrinks by the room of the entries at most. The
  -- directory is one that the program has printed, and there are a number and room left.
  pub make_fresh :
      (s : State) (type parent : ℕ) (es : List Dirent) (name : Bytes) (exist : Bool) (ino_out : ℕ)
      → IsGood s
      → view s parent ≡ some (record { type = t_dir; content = print_entries es })
      → All IsEntry es
      → find name es ≡ none
      → 0 < slots s
      → 0 < type
      → type < 2 ^ 15
      → length (print_entries es) + length name + 22 ≤ max_len
      → cost (length (print_entries es) + length name + 22) ≤ room s
      → (t : State) × (inum : ℕ) × (make ec type parent name exist ino_out s
          ≡ some ((Status.ok, inum), t))
        × IsGood t
        × (inum < 2 ^ 31)
        × (view s inum ≡ none)
        × ((j : ℕ)
            → view t j ≡ (
                if parent == j
                then some (record {
                  type = t_dir;
                  content = print_entries (es ++ record { name = name; inum = inum } ∷ []);
                })
                else if inum == j
                then some (record { type = type; content = [] })
                else view s j))
        × (room s ≤ room t + cost (length (print_entries es) + length name + 22))
  make_fresh s type parent es name exist ino_out g d entries new left typed typed' small fits =
      let dir : IsDir ec laws s parent (print_entries es) es = record {
        file = d;
        entries = parse_entries-print_entries es entries;
      } in
      let (t, looked, same) = lookup-IsDir ec laws s parent _ es name exist ino_out g dir in
      let (u, inum, created, good, low, unused, files, space, _) =
        laws.create_law t type same.good (omega (arith, same.left, left)) typed typed' in
      let old : File = record { type = t_dir; content = print_entries es } in
      let other : inum ≢ parent =
        distinct (view t) old unused (ap (λ x. x parent) same.files ∙ d) in
      let there : view u parent ≡ some old =
        put_other (view t) (view u) inum parent _ files other
        ∙ (ap (λ x. x parent) same.files ∙ d) in
      let (v, got, good', files', space', _) = laws.get_law u parent old good there in
      let text : Bytes = print_entries es ++ print_entry name inum in
      let long : length text ≤ length (print_entries es) + length name + 22 = omega (
        arith,
        length-append (print_entries es) (print_entry name inum),
        length-print_entry name inum,
      ) in
      let (w, done, good'', files'', spent, _) =
        laws.put_law v parent old text good' (ap (λ x. x parent) files' ∙ there)
          (omega (arith, long, small))
          (omega (arith, laws.cost_law _ _ long, fits, space', space, same.space)) in
      (
        w,
        inum,
        made_step type parent name exist ino_out s (rw new at looked) created got done,
        good'',
        low,
        ap (λ x. x inum) (sym same.files) ∙ unused,
        λ j.
            two_files (view s) (view u) (view w) inum parent
              (some (record { type = t_dir; content = text }))
              (some (record { type = type; content = [] })) j
              (files
                ∙ ap (λ x. put_file x inum (some (record { type = type; content = [] })))
                    same.files)
              (files''
                ∙ ap (λ x. put_file x parent (some (record { type = t_dir; content = text })))
                    files')
            ∙ ap
                (λ b.
                  if parent == j
                  then some (record { type = t_dir; content = b })
                  else if inum == j
                  then some (record { type = type; content = [] })
                  else view s j)
                (print_entries-snoc es (record { name = name; inum = inum })),
        omega (arith, spent, laws.cost_law _ _ long, space', space, same.space),
      )

  -- After `make` of a new name, `lookup` of this name in the directory answers OK, true and the
  -- number that `make` gave. The name is new, not empty and has no slash;
  -- the directory is one that the program has printed, and there are a number and room left.
  pub lookup-make :
      (s : State) (type parent : ℕ) (es : List Dirent) (name : Bytes) (exist found : Bool)
      (ino_out old : ℕ)
      → IsGood s
      → view s parent ≡ some (record { type = t_dir; content = print_entries es })
      → All IsEntry es
      → find name es ≡ none
      → 0 < slots s
      → 0 < type
      → type < 2 ^ 15
      → length (print_entries es) + length name + 22 ≤ max_len
      → cost (length (print_entries es) + length name + 22) ≤ room s
      → name ≢ []
      → NoSlash name
      → (t u : State) × (inum : ℕ) × (make ec type parent name exist ino_out s
          ≡ some ((Status.ok, inum), t))
        × (lookup ec parent name found old t ≡ some ((Status.ok, true, inum), u))
  lookup-make s type parent es name exist found ino_out old g d entries new left typed typed' small
        fits some_name no_slash =
      let (t, inum, made, good, low, _, files, _) =
        make_fresh s type parent es name exist ino_out g d entries new left typed typed' small
          fits in
      let all : List Dirent = es ++ record { name = name; inum = inum } ∷ [] in
      let dir : IsDir ec laws t parent (print_entries all) all = record {
        file = files parent ∙ ground arith;
        entries =
            parse_entries-print_entries all
              (All-append IsEntry es _ entries ((some_name, no_slash, low), tt));
      } in
      let (u, looked, _) = lookup-IsDir ec laws t parent _ all name found old good dir in
      (
        t,
        u,
        inum,
        made,
        looked
            ∙ ap (λ o. some ((Status.ok, (found_inum o old).0, (found_inum o old).1), u))
                (find-snoc name es inum new),
      )
