-- ===== src/Yfs/Data.antt =====
-- `read`, `write` and `setattr` of yfs_client.cc on the table of files.
use se.Base.{
  ℕ, ◌≤◌, ◌<◌, ◌≡◌, ◌≢◌, ap, ◌∙◌, sym, Bytes, true, arith, some, none, ◌==◌, if◌then◌else◌, length,
  take, take_all, Bool-cases, inl, inr,
}
use se.InodeManager.{Attr, t_file}
use se.Extent.{Status, ExtentClient}
use se.Spec.{File, put_file, type_of, size_of, Laws}
use se.Content.{substr, resize, splice, bytes_written}
use se.Content.Write.{get_or-resize, substr-splice}
use se.Yfs.{isfile, read, write, setattr}
use se.Yfs.Lookup.{has_type-view, Same, Same-trans}

module _ (ec : ExtentClient) (laws : Laws ec) where
  open ec use {State}
  open laws use {IsGood, view, room, slots, cost, max_len}

  write_step :
      (ino size off : ℕ) (source : Bytes) (old : ℕ) (s : State) {buf : Bytes} {t u : State}
      → ec.get ino s ≡ some ((Status.ok, buf), t)
      → ec.put ino (splice buf off (take size source)) t ≡ some (Status.ok, u)
      → write ec ino size off source old s
        ≡ some ((Status.ok, bytes_written buf off (take size source)), u)
  unfolding write
  write_step ino size off source old s a b = ground arith

  read_step :
      (ino size off : ℕ) (old : Bytes) (s : State) {buf found : Bytes} {t u : State}
      → isfile ec ino s ≡ some (true, t)
      → ec.get ino t ≡ some ((Status.ok, buf), u)
      → substr buf off size ≡ some found
      → read ec ino size off old s ≡ some ((Status.ok, found), u)
  unfolding read
  read_step ino size off old s a b c = ground arith

  read_past_end_step :
      (ino size off : ℕ) (old : Bytes) (s : State) {buf : Bytes} {t u : State}
      → isfile ec ino s ≡ some (true, t)
      → ec.get ino t ≡ some ((Status.ok, buf), u)
      → substr buf off size ≡ none
      → read ec ino size off old s ≡ none
  unfolding read
  read_past_end_step ino size off old s a b c = ground arith

  -- What `read` does before it cuts the contents.
  read_contents :
      (s : State) (ino : ℕ) (text : Bytes)
      → IsGood s
      → view s ino ≡ some (record { type = t_file; content = text })
      → (t u : State) × (isfile ec ino s ≡ some (true, t))
        × (ec.get ino t ≡ some ((Status.ok, text), u))
        × Same ec laws s u
  unfolding isfile
  read_contents s ino text g f =
      let (t, e, same) = has_type-view ec laws t_file ino s g (laws.low_law s ino _ g f) in
      let (u, e', good, files, space, left) =
        laws.get_law t ino _ same.good (ap (λ v. v ino) same.files ∙ f) in
      (
        t,
        u,
        e ∙ ap (λ k. some (type_of k == t_file, t)) f,
        e',
        Same-trans ec laws same (record { good = good; files = files; space = space; left = left }),
      )

  -- `read` of a file gives the part of its contents that was asked for, as far as there is one,
  -- and changes nothing.
  pub read-substr :
      (s : State) (ino size off : ℕ) (old text found : Bytes)
      → IsGood s
      → view s ino ≡ some (record { type = t_file; content = text })
      → substr text off size ≡ some found
      → (t : State) × (read ec ino size off old s ≡ some ((Status.ok, found), t)) × Same ec laws s t
  read-substr s ino size off old text found g f e =
      let (t, u, a, b, same) = read_contents s ino text g f in
      (u, read_step ino size off old s a b e, same)

  -- An offset behind the end is std::out_of_range, which nothing catches.
  pub read_past_end :
      (s : State) (ino size off : ℕ) (old text : Bytes)
      → IsGood s
      → view s ino ≡ some (record { type = t_file; content = text })
      → length text < off
      → read ec ino size off old s ≡ none
  read_past_end s ino size off old text g f e =
      let (t, u, a, b, same) = read_contents s ino text g f in
      read_past_end_step ino size off old s a b (unfold substr in ground arith)

  -- `write` puts the spliced contents into the table.
  pub write-splice :
      (s : State) (ino size off old : ℕ) (source text : Bytes) (type : ℕ)
      → IsGood s
      → view s ino ≡ some (record { type = type; content = text })
      → length (splice text off (take size source)) ≤ max_len
      → cost (length (splice text off (take size source))) ≤ room s
      → (t : State) × (write ec ino size off source old s
          ≡ some ((Status.ok, bytes_written text off (take size source)), t))
        × IsGood t
        × (view t
            ≡ put_file
                (view s)
                ino
                (some (record { type = type; content = splice text off (take size source) })))
  write-splice s ino size off old source text type g f small fits =
      let (t, e, good, files, space, left) = laws.get_law s ino _ g f in
      let (u, e', good', files', _, _) =
        laws.put_law t ino (record { type = type; content = text })
          (splice text off (take size source)) good (ap (λ v. v ino) files ∙ f) small
          (rw space fits) in
      (
        u,
        write_step ino size off source old s e e',
        good',
        files'
            ∙ ap
                (λ v.
                  put_file v ino
                    (some (record { type = type; content = splice text off (take size source) })))
                files,
      )

  -- `write` into a file and then `read` at the same place: OK both times, and the same bytes. The
  -- new contents are small enough and there is room for them.
  pub read-write :
      (s : State) (ino off old : ℕ) (source old_bytes text : Bytes)
      → IsGood s
      → view s ino ≡ some (record { type = t_file; content = text })
      → length (splice text off source) ≤ max_len
      → cost (length (splice text off source)) ≤ room s
      → (t u : State) × (write ec ino (length source) off source old s
          ≡ some ((Status.ok, bytes_written text off source), t))
        × (read ec ino (length source) off old_bytes t ≡ some ((Status.ok, source), u))
        × (view u
            ≡ put_file
                (view s)
                ino
                (some (record { type = t_file; content = splice text off source })))
  read-write s ino off old source old_bytes text g f small fits =
      let whole : take (length source) source ≡ source =
        take_all (length source) source (omega arith) in
      let (t, e, good, files) =
        write-splice s ino (length source) off old source text t_file g f (rw whole small)
          (rw whole fits) in
      let table : view t
          ≡ put_file (view s) ino
              (some (record { type = t_file; content = splice text off source })) =
        rw whole at files in
      let there : view t ino ≡ some (record { type = t_file; content = splice text off source }) =
        ap (λ v. v ino) table ∙ ground arith in
      let (u, e', same) =
        read-substr t ino (length source) off old_bytes (splice text off source) source good there
          (substr-splice text off source) in
      (t, u, rw whole at e, e', same.files ∙ table)

  resize_same : (buf : Bytes) (size : ℕ) → length buf ≡ size → resize buf (length buf) size ≡ buf
  unfolding resize
  resize_same buf size e = ground (arith, take_all size buf (omega arith))

  setattr_same_step :
      (ino size : ℕ) (s : State) {a : Attr} {t : State}
      → ec.getattr ino s ≡ some ((Status.ok, a), t)
      → a.size ≡ size
      → setattr ec ino size s ≡ some (Status.ok, t)
  unfolding setattr
  setattr_same_step ino size s e same = ground arith

  setattr_step :
      (ino size : ℕ) (s : State) {a : Attr} {buf : Bytes} {t u v : State}
      → ec.getattr ino s ≡ some ((Status.ok, a), t)
      → a.size ≢ size
      → ec.get ino t ≡ some ((Status.ok, buf), u)
      → ec.put ino (resize buf a.size size) u ≡ some (Status.ok, v)
      → setattr ec ino size s ≡ some (Status.ok, v)
  unfolding setattr
  setattr_step ino size s e differ e' e'' = ground arith

  -- `setattr` gives a file the size that was asked for: the contents are cut, or filled up with
  -- null bytes, and every other file is left as it is. The size is small enough and there is room.
  pub setattr-resize :
      (s : State) (ino size : ℕ) (f : File)
      → IsGood s
      → view s ino ≡ some f
      → size ≤ max_len
      → cost size ≤ room s
      → (t : State) × (setattr ec ino size s ≡ some (Status.ok, t))
        × IsGood t
        × ((j : ℕ)
            → view t j ≡ (
                if ino == j
                then some (record f { content = resize f.content (length f.content) size })
                else view s j))
  setattr-resize s ino size f g found small fits =
      let (t, a, e, _, sized, good, files, space, left) =
        laws.getattr_law s ino g (laws.low_law s ino f g found) in
      let sized' : a.size ≡ length f.content = sized ∙ ap size_of found in
      elim (Bool-cases (a.size == size)) [
        | inl test ↦
            let same : a.size ≡ size = ground arith in
            let whole : resize f.content (length f.content) size ≡ f.content =
              resize_same f.content size (sym sized' ∙ same) in
            (t, setattr_same_step ino size s e same, good, λ j. ground arith)
        | inr test ↦
            let differ : a.size ≢ size = ground arith in
            let (u, e', good', files', space', _) =
              laws.get_law t ino f good (ap (λ v. v ino) files ∙ found) in
            let long : length (resize f.content (length f.content) size) ≡ size =
              (get_or-resize f.content size 0).0 in
            let (v, e'', good'', files'', _, _) =
              laws.put_law u ino f (resize f.content (length f.content) size) good'
                (ap (λ v. v ino) (files' ∙ files) ∙ found) (rw long small)
                (rw (long, space', space) fits) in
            (
              v,
              setattr_step ino size s e differ e' (rw sized' e''),
              good'',
              λ j. ap (λ w. w j) files'' ∙ ground arith,
            )
      ]
