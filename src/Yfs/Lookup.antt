-- ===== src/Yfs/Lookup.antt =====
-- `isdir`, `readdir` and `lookup` of yfs_client.cc on the table of files.
use se.Base.{◌<◌, ◌^◌, ℕ, ◌≡◌, refl, ap, ◌∙◌, Bytes, List, Bool, true, arith, some, ◌==◌}
use se.InodeManager.{Attr, t_dir}
use se.Extent.{Status, ExtentClient}
use se.Spec.{type_of, Laws}
use se.Directory.{Dirent, finished, parse_entries, find}
use se.Yfs.{has_type, isdir, readdir, lookup, found_inum}

module _ (ec : ExtentClient) (laws : Laws ec) where
  open ec use {State}
  open laws use {IsGood, view, room, slots}

  -- A state that differs from s in nothing that the laws speak of.
  pub record Same (s t : State) : Type 0 where
    pub good : IsGood t
    pub files : view t ≡ view s
    pub space : room t ≡ room s
    pub left : slots t ≡ slots s

  pub Same-trans : {s t u : State} → Same s t → Same t u → Same s u
  Same-trans a b = record {
    good = b.good;
    files = b.files ∙ a.files;
    space = b.space ∙ a.space;
    left = b.left ∙ a.left;
  }

  pub Same-refl : {s : State} → IsGood s → Same s s
  Same-refl g = record { good = g; files = refl; space = refl; left = refl }

  has_type_step :
      (type inum : ℕ) (s : State) {t : State} {a : Attr}
      → ec.getattr inum s ≡ some ((Status.ok, a), t)
      → has_type ec type inum s ≡ some (a.type == type, t)
  unfolding has_type
  has_type_step type inum s e = ground arith

  -- The test of a type looks the type up, and changes nothing.
  pub has_type-view :
      (type inum : ℕ) (s : State)
      → IsGood s
      → inum < 2 ^ 31
      → (t : State) × (has_type ec type inum s ≡ some (type_of (view s inum) == type, t)) × Same s t
  has_type-view type inum s g low =
      let (t, a, e, typed, _, good, files, space, left) = laws.getattr_law s inum g low in
      (
        t,
        has_type_step type inum s e ∙ ap (λ k. some (k == type, t)) typed,
        record { good = good; files = files; space = space; left = left },
      )

  -- A directory with these entries.
  pub record IsDir (s : State) (dir : ℕ) (text : Bytes) (es : List Dirent) : Type 0 where
    pub file : view s dir ≡ some (record { type = t_dir; content = text })
    pub entries : parse_entries text ≡ finished es

  pub IsDir-same :
      {s t : State} {dir : ℕ} {text : Bytes} {es : List Dirent}
      → view t ≡ view s
      → IsDir s dir text es
      → IsDir t dir text es
  IsDir-same {dir = dir} e d = record { file = ap (λ v. v dir) e ∙ d.file; entries = d.entries }

  pub isdir-IsDir :
      (s : State) (dir : ℕ) (text : Bytes) (es : List Dirent)
      → IsGood s
      → IsDir s dir text es
      → (t : State) × (isdir ec dir s ≡ some (true, t)) × Same s t
  unfolding isdir
  isdir-IsDir s dir text es g d =
      let (t, e, same) = has_type-view t_dir dir s g (laws.low_law s dir _ g d.file) in
      (t, e ∙ ap (λ f. some (type_of f == t_dir, t)) d.file, same)

  readdir_step :
      (dir : ℕ) (s : State) {t u : State} {text : Bytes} {es : List Dirent}
      → isdir ec dir s ≡ some (true, t)
      → ec.get dir t ≡ some ((Status.ok, text), u)
      → parse_entries text ≡ finished es
      → readdir ec dir s ≡ some ((Status.ok, es), u)
  unfolding readdir
  readdir_step dir s a b c = ground arith

  -- `readdir` lists the entries of a directory and changes nothing.
  pub readdir-IsDir :
      (s : State) (dir : ℕ) (text : Bytes) (es : List Dirent)
      → IsGood s
      → IsDir s dir text es
      → (t : State) × (readdir ec dir s ≡ some ((Status.ok, es), t)) × Same s t
  readdir-IsDir s dir text es g d =
      let (t, e, same) = isdir-IsDir s dir text es g d in
      let (u, e', good, files, space, left) =
        laws.get_law t dir _ same.good (IsDir-same same.files d).file in
      (
        u,
        readdir_step dir s e e' d.entries,
        Same-trans same (record { good = good; files = files; space = space; left = left }),
      )

  lookup_step :
      (parent : ℕ) (name : Bytes) (found : Bool) (ino_out : ℕ) (s : State) {t u : State}
      {r : Status} {es : List Dirent}
      → isdir ec parent s ≡ some (true, t)
      → readdir ec parent t ≡ some ((r, es), u)
      → lookup ec parent name found ino_out s
        ≡ some (
          (Status.ok, (found_inum (find name es) ino_out).0, (found_inum (find name es) ino_out).1),
          u,
        )
  unfolding lookup
  lookup_step parent name found ino_out s a b = ground arith

  -- In a directory `lookup` answers OK, whether the name is there, and the number of its first
  -- entry (or what was in the variable). What `found` was before does not matter.
  pub lookup-IsDir :
      (s : State) (parent : ℕ) (text : Bytes) (es : List Dirent) (name : Bytes) (found : Bool)
      (ino_out : ℕ)
      → IsGood s
      → IsDir s parent text es
      → (t : State) × (lookup ec parent name found ino_out s
          ≡ some (
            (
              Status.ok,
              (found_inum (find name es) ino_out).0,
              (found_inum (find name es) ino_out).1,
            ),
            t,
          ))
        × Same s t
  lookup-IsDir s parent text es name found ino_out g d =
      let (t, e, same) = isdir-IsDir s parent text es g d in
      let (u, e', same') = readdir-IsDir t parent text es same.good (IsDir-same same.files d) in
      (u, lookup_step parent name found ino_out s e e', Same-trans same same')
