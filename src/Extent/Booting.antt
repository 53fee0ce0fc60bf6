-- ===== src/Extent/Booting.antt =====
-- The extent server when it starts: `inode_manager::inode_manager` over a formatted disk.
use Prim.Native.Nat.{bit_and-bitwise}
use se.Base.{
  ℕ, zero, suc, ◌+◌, ◌*◌, ◌/◌, ◌%◌, ◌^◌, ◌≡◌, refl, ap, ◌∙◌, sym, List, [], true, false, arith,
  some, none, has, has_bit, replicate, length-replicate, get_or, get_or-replicate, not, fun_ext,
  ◌==◌, Option-cases, inl, inr, subst, some_inj,
}
use se.Disk.{Store, World, empty_disk}
use se.BlockManager.{format_disk, bpb}
use se.BlockManager.Bitmap.{marked}
use se.BlockManager.Count.{free_in, free_count}
use se.Inode.{from_bytes, load_inode}
use se.Inode.Layout.{IsWord}
use se.InodeManager.{t_dir, alloc_inode, boot}
use se.InodeManager.Table.{inode_at}
use se.InodeManager.Stores.{IsWorld}
use se.InodeManager.Writing.{IsSound}
use se.Spec.{Files, put_file}
use se.Spec.Calls.{Call, Answer, Steps, Runs, Runs-Steps}
use se.Extent.{Status, disk_client, server_create}
use se.Extent.State.{file_of, view, blocks_of, Owns, IsGood}
use se.Extent.Lifetime.{server_create-put_file}
use se.Extent.Refines.{disk_laws, numbers_left}

null_byte : (i : ℕ) → ◌≡◌ {A = ℕ} (get_or {A = ℕ} (replicate {A = ℕ} 512 0) i 0) 0
null_byte i = get_or-replicate {A = ℕ} 512 0 i

-- The environment gives 32-bit words.
pub record IsEnvironment (world : ℕ → World) : Type 0 where
  pub words : IsWorld world
  pub clock : (k : ℕ) → IsWord (world k).now

module _ (world : ℕ → World) where
  pub format_disk-IsSound : IsEnvironment world → IsSound (format_disk world)
  unfolding format_disk empty_disk
  format_disk-IsSound h = record {
    formatted = refl;
    valid = λ j lo hi. record {
      size = length-replicate {A = ℕ} 512 0;
      byte = λ i. omega (arith, null_byte i);
    };
    words = h.words;
    clock = h.clock;
  }

  empty_inode : (load_inode (replicate 512 0)).type ≡ 0
  unfolding load_inode from_bytes
  empty_inode = refl

  pub format_disk-inode_at : (j : ℕ) → inode_at (format_disk world) j ≡ none
  unfolding inode_at format_disk empty_disk
  format_disk-inode_at j = ground (arith, empty_inode)

  clear_bit : (o : ℕ) → has_bit 0 o ≡ false
  unfolding has_bit
  clear_bit o = ap (λ b. not (b == 0)) (bit_and-bitwise 0 (2 ^ o))

  format_disk-marked : (j : ℕ) → marked (format_disk world) j ≡ false
  unfolding marked format_disk empty_disk
  format_disk-marked j =
      ap (λ b. has_bit b (j % bpb % 8)) (null_byte (j % bpb / 8)) ∙ clear_bit (j % bpb % 8)

  all_free : (n : ℕ) → free_in n (format_disk world) ≡ n
  unfolding free_in
  all_free zero = refl
  all_free (suc n) = ground (arith, format_disk-marked (2 * bpb + n), all_free n)

  pub format_disk-free : free_count (format_disk world) ≡ 24576
  unfolding free_count
  format_disk-free = all_free 24576

  Owns-none : (i j : ℕ) → ¬ Owns (format_disk world) i j
  unfolding Owns has
  Owns-none i j m =
      elim (nothing (
        sym (ap (λ p. has (blocks_of (format_disk world).blocks p) j) (format_disk-inode_at i))
        ∙ m)) [ ]
    where
      nothing : false ≡ true → ⊥
      nothing h = ground arith

  -- A formatted disk holds no file.
  pub format_disk-IsGood : IsEnvironment world → IsGood (format_disk world)
  format_disk-IsGood h = record {
    sound = format_disk-IsSound h;
    files = λ i ino e. absurd (nothing (sym (format_disk-inode_at i) ∙ e));
    used = λ i j m. absurd (Owns-none i j m);
    apart = λ i k j m. absurd (Owns-none i j m);
    fresh = λ i h. format_disk-inode_at i;
    counted = unfold format_disk in omega arith;
  }
    where
      nothing : {A : Type 0} {a : A} → none ≡ some a → ⊥
      nothing e = ground arith

format_disk-view : (world : ℕ → World) → ◌≡◌ {A = Files} (view (format_disk world)) (λ id. none)
unfolding view
format_disk-view world =
    fun_ext λ j. ap (file_of (format_disk world).blocks) (format_disk-inode_at world j)

-- What `create` does is `alloc_inode`.
allocated :
    (fresh s : Store)
    → server_create t_dir fresh ≡ some ((Status.ok, 1), s)
    → alloc_inode t_dir fresh ≡ some (1, s)
unfolding server_create
allocated fresh s e = elim (Option-cases (alloc_inode t_dir fresh)) [
  | inl none_left ↦ ground (arith, none_left, e)
  | inr (p, made) ↦ ground (arith, made, e)
]

booted :
    (world : ℕ → World) (s : Store)
    → alloc_inode t_dir (format_disk world) ≡ some (1, s)
    → boot world ≡ some s
unfolding boot
booted world s e = ground (arith, e)

-- The table of files with an empty root directory.
abbrev pub root_only : Files
root_only = put_file (λ id. none) 1 (some (record { type = t_dir; content = [] }))

-- The server starts without a fault, with an empty root directory under number 1 and no other
-- file, all 24576 data blocks free, 1022 numbers left, and its disk in order. The environment
-- gives 32-bit words.
pub boot-IsGood :
    (world : ℕ → World)
    → IsEnvironment world
    → (s : Store) × (boot world ≡ some s)
      × IsGood s
      × (view s ≡ root_only)
      × (free_count s ≡ 24576)
      × (numbers_left s ≡ 1022)
boot-IsGood world h =
    let fresh : Store = format_disk world in
    let last : fresh.last_inum ≡ 0 = unfold format_disk in refl in
    let (s, made, good, _, files, room, count) =
      server_create-put_file fresh t_dir (format_disk-IsGood world h) (omega (arith, last))
        (omega arith) (omega arith) in
    let one : fresh.last_inum + 1 ≡ 1 = omega (arith, last) in
    (
      s,
      booted world s (
          allocated fresh s
            (subst (λ k. server_create t_dir fresh ≡ some ((Status.ok, k), s)) one made)),
      good,
      files
          ∙ ap (λ k. put_file (view fresh) k (some (record { type = t_dir; content = [] }))) one
          ∙ ap (λ v. put_file v 1 (some (record { type = t_dir; content = [] })))
              (format_disk-view world),
      room ∙ format_disk-free world,
      omega (arith, count, one),
    )

-- From its start on, every sequence of allowed calls of the extent client on a formatted disk
-- leaves the disk in order, and its answers and its effect are those of the same calls on a table
-- of files that starts with an empty root directory. The environment gives 32-bit words.
pub boot-Steps :
    (world : ℕ → World) (s t : Store) (cs : List Call) (answers : List Answer)
    → IsEnvironment world
    → boot world ≡ some s
    → Runs disk_client disk_laws s cs answers t
    → IsGood t × Steps root_only cs answers (view t)
unfolding disk_laws
boot-Steps world s t cs answers h e runs =
    let (u, started, good, files, _, _) = boot-IsGood world h in
    let same : u ≡ s = some_inj (sym started ∙ e) in
    let (last, steps) = Runs-Steps disk_client disk_laws (subst IsGood same good) runs in
    (last, subst (λ v. Steps v cs answers (view t)) (sym (ap view same) ∙ files) steps)
