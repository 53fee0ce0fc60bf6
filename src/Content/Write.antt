-- ===== src/Content/Write.antt =====
-- The contents of a file after `write` and `setattr`, byte by byte.
use se.Base.{
  ℕ, ◌+◌, ◌-◌, ◌≤◌, ◌<◌, ◌≡◌, refl, ap, Bytes, [], ◌++◌, arith, some, ltb, leb, if◌then◌else◌,
  length, take, drop, replicate, get_or, max, length-append, length-take, length-drop,
  length-replicate, get_or-append, get_or-take, get_or-drop, get_or-replicate, get_or_end,
  take-append, drop-append, ◌&&◌,
}
use se.Content.{substr, resize, splice}

-- The bytes before `off`: the old ones, and zeros in a gap.
front : Bytes → ℕ → Bytes
front buf off = if ltb (length buf) off then buf ++ replicate (off - length buf) 0 else take off buf

back : Bytes → ℕ → Bytes
back buf end = if ltb end (length buf) then drop end buf else []

length-front : (buf : Bytes) (off : ℕ) → length (front buf off) ≡ off
unfolding front
length-front buf off = ground (
  arith,
  length-append buf (replicate (off - length buf) 0),
  length-replicate {A = ℕ} (off - length buf) 0,
  length-take off buf,
)

length-back : (buf : Bytes) (end : ℕ) → length (back buf end) ≡ length buf - end
unfolding back
length-back buf end = ground (arith, length-drop end buf)

get_or-front : (buf : Bytes) (off i : ℕ) → i < off → get_or (front buf off) i 0 ≡ get_or buf i 0
unfolding front
get_or-front buf off i h = ground (
  arith,
  get_or-append buf (replicate (off - length buf) 0) i 0,
  get_or-replicate {A = ℕ} (off - length buf) 0 (i - length buf),
  get_or-take off buf i 0,
  get_or_end buf i 0,
)

get_or-back : (buf : Bytes) (end i : ℕ) → get_or (back buf end) i 0 ≡ get_or buf (end + i) 0
unfolding back
get_or-back buf end i = ground (arith, get_or-drop end buf i 0, get_or_end buf (end + i) 0)

splice_parts :
    (buf : Bytes) (off : ℕ) (buf1 : Bytes)
    → splice buf off buf1 ≡ front buf off ++ (buf1 ++ back buf (off + length buf1))
unfolding splice front back
splice_parts buf off buf1 = refl

-- The file grows to the end of the write, and never shrinks.
pub length-splice :
    (buf : Bytes) (off : ℕ) (buf1 : Bytes)
    → length (splice buf off buf1) ≡ max (length buf) (off + length buf1)
length-splice buf off buf1 = omega (
  arith,
  ap length (splice_parts buf off buf1),
  length-append (front buf off) (buf1 ++ back buf (off + length buf1)),
  length-append buf1 (back buf (off + length buf1)),
  length-front buf off,
  length-back buf (off + length buf1),
)

-- Every byte after a write: the new data in its range, elsewhere what was there, and zero in a
-- gap behind the old end (`get_or` gives zero behind the end).
pub get_or-splice :
    (buf : Bytes) (off : ℕ) (buf1 : Bytes) (i : ℕ)
    → get_or (splice buf off buf1) i 0
      ≡ (if leb off i && ltb i (off + length buf1) then get_or buf1 (i - off) 0 else get_or buf i 0)
get_or-splice buf off buf1 i = rw splice_parts (
    ground (
      arith,
      get_or-append (front buf off) (buf1 ++ back buf (off + length buf1)) i 0,
      get_or-append buf1 (back buf (off + length buf1)) (i - length (front buf off)) 0,
      length-front buf off,
      get_or-front buf off i,
      get_or-back buf (off + length buf1) (i - off - length buf1),
    ))

pub substr_inside :
    (buf : Bytes) (pos n : ℕ) → pos ≤ length buf → substr buf pos n ≡ some (take n (drop pos buf))
unfolding substr
substr_inside buf pos n h = ground arith

drop_front : (n : ℕ) (xs ys : Bytes) → length xs ≡ n → drop n (xs ++ ys) ≡ ys
drop_front n xs ys e = rw (← e) (drop-append xs ys)

-- What was written is read back from the same offset.
pub substr-splice :
    (buf : Bytes) (off : ℕ) (buf1 : Bytes)
    → substr (splice buf off buf1) off (length buf1) ≡ some buf1
substr-splice buf off buf1 = rw (no_throw, splice_parts, skip, take-append)
  where
    no_throw :
        substr (splice buf off buf1) off (length buf1)
        ≡ some (take (length buf1) (drop off (splice buf off buf1)))
    no_throw = substr_inside _ off _ (omega (arith, length-splice buf off buf1))

    skip :
        drop off (front buf off ++ (buf1 ++ back buf (off + length buf1)))
        ≡ buf1 ++ back buf (off + length buf1)
    skip = drop_front off (front buf off) _ (length-front buf off)

-- The file has the new size, its old bytes up to there, and zeros behind the old end.
pub get_or-resize :
    (buf : Bytes) (size i : ℕ)
    → (length (resize buf (length buf) size) ≡ size)
      × (get_or (resize buf (length buf) size) i 0 ≡ (if ltb i size then get_or buf i 0 else 0))
unfolding resize
get_or-resize buf size i = (
  ground (
    arith,
    length-append buf (replicate (size - length buf) 0),
    length-replicate {A = ℕ} (size - length buf) 0,
    length-take size buf,
  ),
  ground (
    arith,
    get_or-append buf (replicate (size - length buf) 0) i 0,
    get_or-replicate {A = ℕ} (size - length buf) 0 (i - length buf),
    get_or-take size buf i 0,
    get_or_end buf i 0,
  ),
)
