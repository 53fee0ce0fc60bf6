-- ===== src/Yfs/Unlink.antt =====
-- `unlink` of yfs_client.cc on the table of files.
use se.Base.{
  ℕ, ◌≤◌, ◌≡◌, ◌≢◌, ap, ◌∙◌, Bytes, List, Bool, true, false, arith, some, none, Option, ◌==◌,
  if◌then◌else◌, length, All,
}
use se.InodeManager.{t_dir}
use se.Extent.{Status, ExtentClient}
use se.Spec.{File, Files, put_file, Laws}
use se.Directory.{Dirent, print_entries, find, erase}
use se.Directory.Parse.{IsEntry, parse_entries-print_entries}
use se.Yfs.{lookup, readdir, unlink}
use se.Yfs.Lookup.{IsDir, Same, lookup-IsDir, readdir-IsDir}

two_changes :
    (v0 v1 v2 : Files) (inum parent : ℕ) (d f : Option File) (j : ℕ)
    → v1 ≡ put_file v0 inum f
    → v2 ≡ put_file v1 parent d
    → v2 j ≡ (if parent == j then d else if inum == j then f else v0 j)
two_changes v0 v1 v2 inum parent d f j a b = ap (λ v. v j) b ∙ ground (arith, ap (λ v. v j) a)

module _ (ec : ExtentClient) (laws : Laws ec) where
  open ec use {State}
  open laws use {IsGood, view, room, slots, cost, max_len}

  missing_step :
      (parent : ℕ) (name : Bytes) (exist : Bool) (ino_out : ℕ) (s : State) {t : State} {r : Status}
      {inum : ℕ}
      → lookup ec parent name exist ino_out s ≡ some ((r, false, inum), t)
      → unlink ec parent name exist ino_out s ≡ some (Status.noent, t)
  unfolding unlink
  missing_step parent name exist ino_out s e = ground arith

  -- A name that the directory does not have: NOENT, and nothing changes.
  pub unlink_missing :
      (s : State) (parent : ℕ) (text : Bytes) (es : List Dirent) (name : Bytes) (exist : Bool)
      (ino_out : ℕ)
      → IsGood s
      → IsDir ec laws s parent text es
      → find name es ≡ none
      → (t : State) × (unlink ec parent name exist ino_out s ≡ some (Status.noent, t))
        × Same ec laws s t
  unlink_missing s parent text es name exist ino_out g d e =
      let (t, e', same) = lookup-IsDir ec laws s parent text es name exist ino_out g d in
      (t, missing_step parent name exist ino_out s (rw e at e'), same)

  unlink_step :
      (parent : ℕ) (name : Bytes) (exist : Bool) (ino_out : ℕ) (s : State) {t u v w : State}
      {r q p : Status} {inum : ℕ} {list : List Dirent}
      → lookup ec parent name exist ino_out s ≡ some ((r, true, inum), t)
      → ec.remove inum t ≡ some (Status.ok, u)
      → readdir ec parent u ≡ some ((q, list), v)
      → ec.put parent (print_entries (erase name list)) v ≡ some (p, w)
      → unlink ec parent name exist ino_out s ≡ some (Status.ok, w)
  unfolding unlink
  unlink_step parent name exist ino_out s a b c d = ground arith

  -- The name of an entry of any type, a directory too: `unlink` answers OK, removes what the entry
  -- names and the first entry of this name from the directory, and leaves every other file as it is.
  -- The comment above `fuseserver_unlink` says that a directory must not be unlinked; the code has no
  -- such test. The directory is one that the program has printed, the entry does not name the
  -- directory itself, and there is room for what is left of the directory.
  pub unlink-erase :
      (s : State) (parent : ℕ) (es : List Dirent) (name : Bytes) (exist : Bool) (ino_out inum : ℕ)
      (f : File)
      → IsGood s
      → view s parent ≡ some (record { type = t_dir; content = print_entries es })
      → All IsEntry es
      → find name es ≡ some inum
      → view s inum ≡ some f
      → inum ≢ parent
      → length (print_entries (erase name es)) ≤ max_len
      → cost (length (print_entries (erase name es))) ≤ room s
      → (t : State) × (unlink ec parent name exist ino_out s ≡ some (Status.ok, t))
        × IsGood t
        × ((j : ℕ)
            → view t j ≡ (
                if parent == j
                then some (record { type = t_dir; content = print_entries (erase name es) })
                else if inum == j
                then none
                else view s j))
  unlink-erase s parent es name exist ino_out inum f g d entries there file other small fits =
      let dir : IsDir ec laws s parent (print_entries es) es = record {
        file = d;
        entries = parse_entries-print_entries es entries;
      } in
      let (t, looked, same) = lookup-IsDir ec laws s parent _ es name exist ino_out g dir in
      let (u, removed, good, files, space, _) =
        laws.remove_law t inum f same.good (ap (λ v. v inum) same.files ∙ file) in
      let gone : view u ≡ put_file (view s) inum none =
        files ∙ ap (λ v. put_file v inum none) same.files in
      let kept : view u parent ≡ view s parent = ap (λ v. v parent) gone ∙ ground arith in
      let dir' : IsDir ec laws u parent (print_entries es) es = record {
        file = kept ∙ d;
        entries = dir.entries;
      } in
      let (v, listed, same') = readdir-IsDir ec laws u parent _ es good dir' in
      let old : File = record { type = t_dir; content = print_entries es } in
      let (w, done, good', files', _, _) =
        laws.put_law v parent old (print_entries (erase name es)) same'.good
          (ap (λ x. x parent) same'.files ∙ dir'.file) small
          (omega (arith, fits, space, same.space, same'.space)) in
      (
        w,
        unlink_step parent name exist ino_out s (rw there at looked) removed listed done,
        good',
        λ j. two_changes (view s) (view u) (view w) inum parent _ none j gone (
            files'
            ∙ ap
                (λ x.
                  put_file x parent
                    (some (record { type = t_dir; content = print_entries (erase name es) })))
                same'.files),
      )
