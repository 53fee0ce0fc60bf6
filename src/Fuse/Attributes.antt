-- ===== src/Fuse/Attributes.antt =====
-- `getattr` of fuse.cc and its handler on the table of files.
use se.Base.{
  ◌<◌, ◌^◌, ℕ, ◌≡◌, refl, ap, ◌∙◌, Bool, true, false, arith, some, ◌==◌, if◌then◌else◌, Bool-cases,
  inl, inr,
}
use se.InodeManager.{Attr, t_dir, t_file}
use se.Extent.{Status, ExtentClient}
use se.Spec.{type_of, size_of, Laws}
use se.Yfs.{FileInfo, DirInfo, isfile, isdir, getfile, getdir}
use se.Yfs.Lookup.{Same, Same-trans, has_type-view}
use se.Fuse.{Stat, Reply, no_file, no_dir, file_stat, dir_stat, getattr, fuseserver_getattr}

-- What the kernel is told: the mode of a type. A node that is no file and no directory is a link.
abbrev pub mode_of : ℕ → ℕ
mode_of type = if type == t_file then 0o100666 else if type == t_dir then 0o040777 else 0o120777

mode_file : (k : ℕ) → k == t_file ≡ true → 0o100666 ≡ mode_of k
mode_file k e = ground arith

mode_dir : (k : ℕ) → k == t_dir ≡ true → 0o040777 ≡ mode_of k
mode_dir k e = ground arith

mode_link : (k : ℕ) → k == t_file ≡ false → k == t_dir ≡ false → 0o120777 ≡ mode_of k
mode_link k e d = ground arith

size_file : (k m n : ℕ) → k == t_file ≡ true → m ≡ n → m ≡ (if k == t_dir then 0 else n)
size_file k m n e h = ground arith

size_dir : (k n : ℕ) → k == t_dir ≡ true → 0 ≡ (if k == t_dir then 0 else n)
size_dir k n e = ground arith

size_link : (k m n : ℕ) → k == t_dir ≡ false → m ≡ n → m ≡ (if k == t_dir then 0 else n)
size_link k m n e h = ground arith

module _ (ec : ExtentClient) (laws : Laws ec) where
  open ec use {State}
  open laws use {IsGood, view}

  getfile_step :
      (inum : ℕ) (fin : FileInfo) (s : State) {a : Attr} {t : State}
      → ec.getattr inum s ≡ some ((Status.ok, a), t)
      → getfile ec inum fin s
        ≡ some (
          (Status.ok, record { size = a.size; atime = a.atime; mtime = a.mtime; ctime = a.ctime }),
          t,
        )
  unfolding getfile
  getfile_step inum fin s e = ground arith

  getfile-view :
      (inum : ℕ) (fin : FileInfo) (s : State)
      → IsGood s
      → inum < 2 ^ 31
      → (t : State) × (info : FileInfo) × (getfile ec inum fin s ≡ some ((Status.ok, info), t))
        × (info.size ≡ size_of (view s inum))
        × Same ec laws s t
  getfile-view inum fin s g low =
      let (t, a, e, _, sized, good, files, space, left) = laws.getattr_law s inum g low in
      (
        t,
        _,
        getfile_step inum fin s e,
        sized,
        record { good = good; files = files; space = space; left = left },
      )

  getdir_step :
      (inum : ℕ) (din : DirInfo) (s : State) {a : Attr} {t : State}
      → ec.getattr inum s ≡ some ((Status.ok, a), t)
      → getdir ec inum din s
        ≡ some ((Status.ok, record { atime = a.atime; mtime = a.mtime; ctime = a.ctime }), t)
  unfolding getdir
  getdir_step inum din s e = ground arith

  getdir-view :
      (inum : ℕ) (din : DirInfo) (s : State)
      → IsGood s
      → inum < 2 ^ 31
      → (t : State) × (info : DirInfo) × (getdir ec inum din s ≡ some ((Status.ok, info), t))
        × Same ec laws s t
  getdir-view inum din s g low =
      let (t, a, e, _, _, good, files, space, left) = laws.getattr_law s inum g low in
      (
        t,
        _,
        getdir_step inum din s e,
        record { good = good; files = files; space = space; left = left },
      )

  file_step :
      (inum : ℕ) (s : State) {t u v : State} {b : Bool} {info : FileInfo}
      → isfile ec inum s ≡ some (b, t)
      → isfile ec inum t ≡ some (true, u)
      → getfile ec inum no_file u ≡ some ((Status.ok, info), v)
      → getattr ec inum s ≡ some ((Status.ok, file_stat inum 0o100666 info), v)
  unfolding getattr
  file_step inum s a b c = ground arith

  dir_step :
      (inum : ℕ) (s : State) {t u v w : State} {b : Bool} {info : DirInfo}
      → isfile ec inum s ≡ some (b, t)
      → isfile ec inum t ≡ some (false, u)
      → isdir ec inum u ≡ some (true, v)
      → getdir ec inum no_dir v ≡ some ((Status.ok, info), w)
      → getattr ec inum s ≡ some ((Status.ok, dir_stat inum info), w)
  unfolding getattr
  dir_step inum s a b c d = ground arith

  link_step :
      (inum : ℕ) (s : State) {t u v w : State} {b : Bool} {info : FileInfo}
      → isfile ec inum s ≡ some (b, t)
      → isfile ec inum t ≡ some (false, u)
      → isdir ec inum u ≡ some (false, v)
      → getfile ec inum no_file v ≡ some ((Status.ok, info), w)
      → getattr ec inum s ≡ some ((Status.ok, file_stat inum 0o120777 info), w)
  unfolding getattr
  link_step inum s a b c d = ground arith

  -- The two tests that `getattr` begins with, and what they answer.
  isfile-view :
      (inum : ℕ) (s : State)
      → IsGood s
      → inum < 2 ^ 31
      → (t : State) × (isfile ec inum s ≡ some (type_of (view s inum) == t_file, t))
        × Same ec laws s t
  unfolding isfile
  isfile-view inum s g low = has_type-view ec laws t_file inum s g low

  isdir-view :
      (inum : ℕ) (s : State)
      → IsGood s
      → inum < 2 ^ 31
      → (t : State) × (isdir ec inum s ≡ some (type_of (view s inum) == t_dir, t))
        × Same ec laws s t
  unfolding isdir
  isdir-view inum s g low = has_type-view ec laws t_dir inum s g low

  -- `getattr` of a number below 2 ^ 31 always answers OK: the mode goes by the type in the table, the size is the length of
  -- the contents, and nothing changes. A directory has size 0.
  pub getattr-view :
      (inum : ℕ) (s : State)
      → IsGood s
      → inum < 2 ^ 31
      → (t : State) × (st : Stat) × (getattr ec inum s ≡ some ((Status.ok, st), t))
        × (st.ino ≡ inum)
        × (st.mode ≡ mode_of (type_of (view s inum)))
        × (st.size ≡ (if type_of (view s inum) == t_dir then 0 else size_of (view s inum)))
        × Same ec laws s t
  getattr-view inum s g low =
      let (t, a, same1) = isfile-view inum s g low in
      let (u, b, same2) = isfile-view inum t same1.good low in
      let same = Same-trans ec laws same1 same2 in
      let b' : isfile ec inum t ≡ some (type_of (view s inum) == t_file, u) =
        b ∙ ap (λ v. some (type_of (v inum) == t_file, u)) same1.files in
      elim (Bool-cases (type_of (view s inum) == t_file)) [
        | inl e ↦
            let (v, info, c, sized, same3) = getfile-view inum no_file u same.good low in
            (
              v,
              file_stat inum 0o100666 info,
              file_step inum s a (rw e at b') c,
              refl,
              mode_file _ e,
              size_file (type_of (view s inum)) _ _ e
                  (sized ∙ ap (λ w. size_of (w inum)) same.files),
              Same-trans ec laws same same3,
            )
        | inr e ↦
            let (v, c, same3) = isdir-view inum u same.good low in
            let c' : isdir ec inum u ≡ some (type_of (view s inum) == t_dir, v) =
              c ∙ ap (λ w. some (type_of (w inum) == t_dir, v)) same.files in
            let same' = Same-trans ec laws same same3 in
            elim (Bool-cases (type_of (view s inum) == t_dir)) [
              | inl d ↦
                  let (w, info, got, same4) = getdir-view inum no_dir v same'.good low in
                  (
                    w,
                    dir_stat inum info,
                    dir_step inum s a (rw e at b') (rw d at c') got,
                    refl,
                    mode_dir _ d,
                    size_dir (type_of (view s inum)) _ d,
                    Same-trans ec laws same' same4,
                  )
              | inr d ↦
                  let (w, info, got, sized, same4) = getfile-view inum no_file v same'.good low in
                  (
                    w,
                    file_stat inum 0o120777 info,
                    link_step inum s a (rw e at b') (rw d at c') got,
                    refl,
                    mode_link _ e d,
                    size_link (type_of (view s inum)) _ _ d
                        (sized ∙ ap (λ w. size_of (w inum)) same'.files),
                    Same-trans ec laws same' same4,
                  )
            ]
      ]

  getattr_reply :
      (ino : ℕ) (s : State) {t : State} {st : Stat}
      → getattr ec ino s ≡ some ((Status.ok, st), t)
      → fuseserver_getattr ec ino s ≡ some (Reply.attr st, t)
  unfolding fuseserver_getattr
  getattr_reply ino s e = ground arith

  -- The kernel's request for the attributes of a number below 2 ^ 31 is always answered by attributes, never by ENOENT: the mode
  -- goes by the type in the table, the size is the length of the contents (0 for a directory), and
  -- nothing changes. A number that no file has is shown as an empty symbolic link.
  pub fuseserver_getattr-view :
      (ino : ℕ) (s : State)
      → IsGood s
      → ino < 2 ^ 31
      → (t : State) × (st : Stat) × (fuseserver_getattr ec ino s ≡ some (Reply.attr st, t))
        × (st.ino ≡ ino)
        × (st.mode ≡ mode_of (type_of (view s ino)))
        × (st.size ≡ (if type_of (view s ino) == t_dir then 0 else size_of (view s ino)))
        × Same ec laws s t
  fuseserver_getattr-view ino s g low =
      let (t, st, e, number, mode, size, same) = getattr-view ino s g low in
      (t, st, getattr_reply ino s e, number, mode, size, same)
