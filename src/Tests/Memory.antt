-- ===== src/Tests/Memory.antt =====
-- An extent client that keeps its files in memory: the promise of Spec.antt can be kept.
use se.Base.{
  ltb, ltb→lt, ltb→le, ◌<◌, ℕ, ◌+◌, ◌-◌, ◌^◌, ◌≤◌, ◌≡◌, refl, ap, ◌∙◌, sym, Bytes, [], Option, none,
  some, ◌==◌, arith, Bool-cases, inl, inr,
}
use se.Extent.{Status, ExtentClient}
use se.Spec.{File, Files, put_file, type_of, size_of, Laws}

pub record Memory : Type 0 where
  pub files : Files
  pub next : ℕ
  pub left : ℕ

abbrev pub write_back : ℕ → Bytes → Memory → Option File → Status × Memory
write_back id buf s none = (Status.noent, s)
write_back id buf s (some f) =
    (Status.ok, record s { files = put_file s.files id (some (record f { content = buf })) })

abbrev pub contents : Option File → Status × Bytes
contents none = (Status.noent, [])
contents (some f) = (Status.ok, f.content)

abbrev pub memory_client : ExtentClient
memory_client = record {
  State = Memory;
  create = λ type s. some (
    (Status.ok, s.next),
    record {
      files = put_file s.files s.next (some (record { type = type; content = [] }));
      next = s.next + 1;
      left = s.left - 1;
    },
  );
  get = λ id s. some (contents (s.files id), s);
  getattr = λ id s. some (
    (
      Status.ok,
      record {
        type = type_of (s.files id);
        atime = 0;
        mtime = 0;
        ctime = 0;
        size = size_of (s.files id);
      },
    ),
    s,
  );
  put = λ id buf s. some (write_back id buf s (s.files id));
  remove = λ id s. some (Status.ok, record s { files = put_file s.files id none });
}

pub record IsMemory (s : Memory) : Type 0 where
  pub unused : (j : ℕ) → s.next ≤ j → s.files j ≡ none
  pub fits : s.next + s.left ≤ 2 ^ 31

pub unused_put :
    (v : Files) (id j : ℕ) (f : File) (o : Option File)
    → v id ≡ some f
    → v j ≡ none
    → put_file v id o j ≡ none
unused_put v id j f o a b = elim (Bool-cases (id == j)) [
  | inr differ ↦ ground arith
  | inl same ↦ let here : id ≡ j = ground arith in ground (arith, sym (ap v here ∙ b) ∙ a)
]

pub unused_new :
    (v : Files) (id j : ℕ) (o : Option File) → id < j → v j ≡ none → put_file v id o j ≡ none
unused_new v id j o less a = ground arith

pub memory_low : (s : Memory) (id : ℕ) (f : File) → IsMemory s → s.files id ≡ some f → id < 2 ^ 31
memory_low s id f g e = elim (Bool-cases (ltb id s.next)) [
  | inl near ↦ omega (arith, g.fits, ltb→lt _ _ near)
  | inr far ↦ absurd (nothing (sym (g.unused id (ltb→le _ _ far)) ∙ e))
]
  where
    nothing : none ≡ some f → ⊥
    nothing h = ground arith

abbrev pub memory_laws : Laws memory_client
memory_laws = record {
  IsGood = IsMemory;
  view = λ s. s.files;
  room = λ s. 0;
  slots = λ s. s.left;
  cost = λ n. 0;
  max_len = 4096;
  cost_law = λ m n h. omega arith;
  low_law = λ s id f g e. memory_low s id f g e;
  getattr_law = λ s id g low. (s, _, refl, refl, refl, g, refl, refl, refl);
  get_law = λ s id f g e. (s, ap (λ o. some (contents o, s)) e, g, refl, refl, refl);
  put_law = λ s id f buf g e h k. (
    (write_back id buf s (some f)).1,
    ap (λ o. some (write_back id buf s o)) e,
    record {
      unused =
          λ j h. unused_put s.files id j f (some (record f { content = buf })) e (g.unused j h);
      fits = g.fits;
    },
    refl,
    omega arith,
    refl,
  );
  create_law = λ s type g h k l. (
    _,
    s.next,
    refl,
    record {
      unused = λ j p.
          unused_new s.files s.next j (some (record { type = type; content = [] })) (omega arith)
            (g.unused j (omega arith));
      fits = omega (arith, g.fits);
    },
    omega (arith, g.fits),
    g.unused s.next (omega arith),
    refl,
    refl,
    omega arith,
  );
  remove_law = λ s id f g e. (
    _,
    refl,
    record { unused = λ j h. unused_put s.files id j f none e (g.unused j h); fits = g.fits },
    refl,
    omega arith,
    refl,
  );
}
