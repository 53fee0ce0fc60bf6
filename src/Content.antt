-- ===== src/Content.antt =====
-- What `setattr`, `read` and `write` of yfs_client.cc make of the contents of a file.
pub mod Write
use se.Base.{
  ℕ, ◌+◌, ◌-◌, Bytes, [], ◌++◌, Option, none, some, ltb, if◌then◌else◌, length, take, drop,
  replicate,
}

-- `buf.substr(pos, n)`; `none` is std::out_of_range.
unfoldable pub substr : Bytes → ℕ → ℕ → Option Bytes
substr buf pos n = if ltb (length buf) pos then none else some (take n (drop pos buf))

-- `setattr`: `old` is the size that the attributes give.
unfoldable pub resize : Bytes → ℕ → ℕ → Bytes
resize buf old size = if ltb old size then buf ++ replicate (size - old) 0 else take size buf

abbrev suffix_of : Bytes → ℕ → Bytes
suffix_of buf end = if ltb end (length buf) then drop end buf else []

-- `write`: the new contents. The cast of the length of `buf` to int changes nothing, since `buf` is
-- what `get` gave, and `get` gives fewer than 2 ^ 31 bytes.
unfoldable pub splice : Bytes → ℕ → Bytes → Bytes
splice buf off buf1 =
    (if ltb (length buf) off then buf ++ replicate (off - length buf) 0 else take off buf)
    ++ (buf1 ++ suffix_of buf (off + length buf1))

-- `write`: what is put into `bytes_written`.
unfoldable pub bytes_written : Bytes → ℕ → Bytes → ℕ
bytes_written buf off buf1 =
    if ltb (length buf) off then off - length buf + length buf1 else length buf1
