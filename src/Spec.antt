-- ===== src/Spec.antt =====
-- What yfs_client relies on: an extent client is a table of files with a type and contents. The
-- operations keep the table, as long as there are numbers and room left.
pub mod Calls
use se.Base.{ℕ, ◌+◌, ◌^◌, ◌≤◌, ◌<◌, ◌≡◌, Bytes, [], Option, none, some, ◌==◌, if◌then◌else◌, length}
use se.InodeManager.{Attr}
use se.Extent.{Status, ExtentClient}

pub record File : Type 0 where
  pub type : ℕ
  pub content : Bytes

abbrev pub Files : Type 0
Files = ℕ → Option File

abbrev pub put_file : Files → ℕ → Option File → Files
put_file files id f j = if id == j then f else files j

abbrev pub type_of : Option File → ℕ
type_of none = 0
type_of (some f) = f.type

abbrev pub size_of : Option File → ℕ
size_of none = 0
size_of (some f) = length f.content

-- `view` is the table, `room` the space left for contents (a string of n bytes takes at most
-- `cost n`), and `slots` the numbers left for new files.
pub record Laws (ec : ExtentClient) : Type 1 where
  pub IsGood : ec.State → Type 0
  pub view : ec.State → Files
  pub room : ec.State → ℕ
  pub slots : ec.State → ℕ
  pub cost : ℕ → ℕ
  pub max_len : ℕ
  pub cost_law : (m n : ℕ) → m ≤ n → cost m ≤ cost n
  pub low_law : (s : ec.State) (id : ℕ) (f : File) → IsGood s → view s id ≡ some f → id < 2 ^ 31
  pub getattr_law :
      (s : ec.State) (id : ℕ)
      → IsGood s
      → id < 2 ^ 31
      → (t : ec.State) × (a : Attr) × (ec.getattr id s ≡ some ((Status.ok, a), t))
        × (a.type ≡ type_of (view s id))
        × (a.size ≡ size_of (view s id))
        × IsGood t
        × (view t ≡ view s)
        × (room t ≡ room s)
        × (slots t ≡ slots s)
  pub get_law :
      (s : ec.State) (id : ℕ) (f : File)
      → IsGood s
      → view s id ≡ some f
      → (t : ec.State) × (ec.get id s ≡ some ((Status.ok, f.content), t))
        × IsGood t
        × (view t ≡ view s)
        × (room t ≡ room s)
        × (slots t ≡ slots s)
  pub put_law :
      (s : ec.State) (id : ℕ) (f : File) (buf : Bytes)
      → IsGood s
      → view s id ≡ some f
      → length buf ≤ max_len
      → cost (length buf) ≤ room s
      → (t : ec.State) × (ec.put id buf s ≡ some (Status.ok, t))
        × IsGood t
        × (view t ≡ put_file (view s) id (some (record f { content = buf })))
        × (room s ≤ room t + cost (length buf))
        × (slots t ≡ slots s)
  pub create_law :
      (s : ec.State) (type : ℕ)
      → IsGood s
      → 0 < slots s
      → 0 < type
      → type < 2 ^ 15
      → (t : ec.State) × (id : ℕ) × (ec.create type s ≡ some ((Status.ok, id), t))
        × IsGood t
        × (id < 2 ^ 31)
        × (view s id ≡ none)
        × (view t ≡ put_file (view s) id (some (record { type = type; content = [] })))
        × (room t ≡ room s)
        × (slots s ≡ slots t + 1)
  pub remove_law :
      (s : ec.State) (id : ℕ) (f : File)
      → IsGood s
      → view s id ≡ some f
      → (t : ec.State) × (ec.remove id s ≡ some (Status.ok, t))
        × IsGood t
        × (view t ≡ put_file (view s) id none)
        × (room s ≤ room t)
        × (slots t ≡ slots s)
