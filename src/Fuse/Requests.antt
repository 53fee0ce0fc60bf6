-- ===== src/Fuse/Requests.antt =====
-- The handlers of fuse.cc that write and create, on the table of files.
use se.Base.{
  ℕ, ◌+◌, ◌-◌, ◌≤◌, ◌<◌, ◌≡◌, ◌≢◌, ap, ◌∙◌, Bytes, List, [], Bool, arith, some, none, ◌==◌,
  if◌then◌else◌, length, take, take_all, All,
}
use se.InodeManager.{t_dir, t_file}
use se.Extent.{Status, ExtentClient}
use se.Spec.{File, Files, put_file, type_of, size_of, Laws}
use se.Directory.{Dirent, print_entries, find}
use se.Directory.Parse.{IsEntry}
use se.Content.{splice, bytes_written}
use se.Yfs.{write, make, create}
use se.Yfs.Create.{make_fresh, distinct}
use se.Yfs.Data.{write-splice}
use se.Fuse.{
  Stat, Entry, Reply, getattr, createhelper, entry_reply, fuseserver_write, fuseserver_create,
}
use se.Fuse.Attributes.{mode_of, getattr-view}

bytes_written_gap :
    (text : Bytes) (off : ℕ) (source : Bytes)
    → bytes_written text off source ≡ length source + (off - length text)
unfolding bytes_written
bytes_written_gap text off source = ground arith

new_file_at :
    (v w : Files) (inum parent : ℕ) (d f : File)
    → (w inum ≡ (if parent == inum then some d else if inum == inum then some f else v inum))
    → inum ≢ parent
    → w inum ≡ some f
new_file_at v w inum parent d f e other = ground arith

module _ (ec : ExtentClient) (laws : Laws ec) where
  open ec use {State}
  open laws use {IsGood, view, room, slots, cost, max_len}

  write_reply :
      (ino : ℕ) (source : Bytes) (size off : ℕ) (s : State) {n : ℕ} {t : State}
      → write ec ino size off source size s ≡ some ((Status.ok, n), t)
      → fuseserver_write ec ino source size off s ≡ some (Reply.wrote n, t)
  unfolding fuseserver_write
  write_reply ino source size off s e = ground arith

  -- A write of all the bytes of a buffer: the file gets the spliced contents, and the number in
  -- the reply is the length of the buffer and, on top of it, the length of the gap that was filled
  -- with null bytes. The new contents are small enough and there is room.
  pub fuseserver_write-splice :
      (s : State) (ino off : ℕ) (source text : Bytes) (type : ℕ)
      → IsGood s
      → view s ino ≡ some (record { type = type; content = text })
      → length (splice text off source) ≤ max_len
      → cost (length (splice text off source)) ≤ room s
      → (t : State) × (fuseserver_write ec ino source (length source) off s
          ≡ some (Reply.wrote (length source + (off - length text)), t))
        × IsGood t
        × (view t
            ≡ put_file
                (view s)
                ino
                (some (record { type = type; content = splice text off source })))
  fuseserver_write-splice s ino off source text type g f small fits =
      let whole : take (length source) source ≡ source =
        take_all (length source) source (omega arith) in
      let (t, e, good, files) =
        write-splice ec laws s ino (length source) off (length source) source text type g f
          (rw whole small) (rw whole fits) in
      (
        t,
        write_reply ino source (length source) off s (rw whole at e)
            ∙ ap (λ (n : ℕ). some (Reply.wrote n, t)) (bytes_written_gap text off source),
        good,
        rw whole at files,
      )

  created_reply :
      (parent : ℕ) (name : Bytes) (exist : Bool) (old : ℕ) (e : Entry) (s : State) {t u : State}
      {inum : ℕ} {st : Stat}
      → make ec t_file parent name exist old s ≡ some ((Status.ok, inum), t)
      → getattr ec inum t ≡ some ((Status.ok, st), u)
      → fuseserver_create ec parent name exist old e s
        ≡ some (Reply.created (record { ino = inum; attr = st }), u)
  unfolding fuseserver_create createhelper entry_reply create
  created_reply parent name exist old e s a b = ground arith

  -- A request to create a new name in a directory that the program has printed is answered by an
  -- entry: its number had no file before and has an empty one now, and its attributes are those of
  -- a regular file of size 0. There are a number and room left.
  pub fuseserver_create_fresh :
      (s : State) (parent : ℕ) (es : List Dirent) (name : Bytes) (exist : Bool) (old : ℕ)
      (e : Entry)
      → IsGood s
      → view s parent ≡ some (record { type = t_dir; content = print_entries es })
      → All IsEntry es
      → find name es ≡ none
      → 0 < slots s
      → length (print_entries es) + length name + 22 ≤ max_len
      → cost (length (print_entries es) + length name + 22) ≤ room s
      → (t : State) × (inum : ℕ) × (st : Stat) × (fuseserver_create ec parent name exist old e s
          ≡ some (Reply.created (record { ino = inum; attr = st }), t))
        × (view s inum ≡ none)
        × (view t inum ≡ some (record { type = t_file; content = [] }))
        × (st.ino ≡ inum)
        × (st.mode ≡ 0o100666)
        × (st.size ≡ 0)
  fuseserver_create_fresh s parent es name exist old e g d entries new left small fits =
      let (t, inum, made, good, low, unused, files, _) =
        make_fresh ec laws s t_file parent es name exist old g d entries new left (omega arith)
          (omega arith) small fits in
      let file : view t inum ≡ some (record { type = t_file; content = [] }) =
        new_file_at (view s) (view t) inum parent _ _ (files inum) (distinct (view s) _ unused d) in
      let (u, st, got, number, mode, size, same) = getattr-view ec laws inum t good low in
      (
        u,
        inum,
        st,
        created_reply parent name exist old e s made got,
        unused,
        ap (λ v. v inum) same.files ∙ file,
        number,
        mode ∙ ap (λ o. mode_of (type_of o)) file,
        size ∙ ap (λ o. if type_of o == t_dir then 0 else size_of o) file,
      )
