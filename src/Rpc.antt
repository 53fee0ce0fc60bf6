-- ===== src/Rpc.antt =====
-- The headers of the RPC library: the buffers of rpc/marshall.h and the message headers in them. The
-- bodies of `pack` and `unpack` are in a binary, so they are arguments. An int is its 32 bits.
pub mod Spell
pub mod Header
pub mod Wire
pub mod Vectors
pub mod Maps
pub mod Buffers
pub mod Calls
pub mod Handlers
pub mod Transparency
pub mod Arguments
pub mod Server
pub mod Fifo
use se.Base.{
  ℕ, ◌+◌, ◌-◌, ◌^◌, ◌≡◌, ◌≤◌, ◌<◌, Bytes, List, [], ◌∷◌, ◌++◌, Bool, true, false, ltb,
  if◌then◌else◌, take, drop, length,
}

-- static_max of lang/algorithm.h
abbrev pub static_max : ℕ → ℕ → ℕ
static_max a b = if ltb b a then a else b

-- `return` values of C++ below zero are `negsuc`.
pub data ℤ : Type 0 where
  pos negsuc : ℕ → ℤ

abbrev pub is_negative : ℤ → Bool
is_negative (pos n) = false
is_negative (negsuc n) = true

-- class rpc_const
abbrev pub bind_proc : ℕ
bind_proc = 1

abbrev pub timeout_failure : ℤ
timeout_failure = ℤ.negsuc 0

abbrev pub unmarshal_args_failure : ℤ
unmarshal_args_failure = ℤ.negsuc 1

abbrev pub unmarshal_reply_failure : ℤ
unmarshal_reply_failure = ℤ.negsuc 2

abbrev pub atmostonce_failure : ℤ
atmostonce_failure = ℤ.negsuc 3

abbrev pub oldsrv_failure : ℤ
oldsrv_failure = ℤ.negsuc 4

abbrev pub bind_failure : ℤ
bind_failure = ℤ.negsuc 5

abbrev pub cancel_failure : ℤ
cancel_failure = ℤ.negsuc 6

-- struct req_header and struct reply_header
pub record ReqHeader : Type 0 where
  pub xid : ℕ
  pub proc : ℕ
  pub clt_nonce : ℕ
  pub srv_nonce : ℕ
  pub xid_rep : ℕ

pub record ReplyHeader : Type 0 where
  pub xid : ℕ
  pub ret : ℕ

-- sizeof(rpc_sz_t), RPC_HEADER_SZ without checksums (20 and 8 bytes are the sizes of the structs),
-- and DEFAULT_RPC_SZ
abbrev pub size_field : ℕ
size_field = 4

abbrev pub header_size : ℕ
header_size = static_max 20 8 + size_field

abbrev pub default_size : ℕ
default_size = 1024

-- class marshall; a null pointer is a buffer of no bytes.
pub record Marshall : Type 0 where
  pub buf : Bytes
  pub capa : ℕ
  pub ind : ℕ

-- class unmarshall
pub record Unmarshall : Type 0 where
  pub buf : Bytes
  pub sz : ℕ
  pub ind : ℕ
  pub ok : Bool

-- marshall::marshall; malloc leaves `memory` in the buffer.
abbrev pub new_marshall : Bytes → Marshall
new_marshall memory = record { buf = memory; capa = default_size; ind = header_size }

-- marshall::get_content, and str
unfoldable pub get_content : Marshall → Bytes
get_content m = take (m.ind - header_size) (drop header_size m.buf)

-- marshall::take_buf
unfoldable pub marshall_take_buf : Marshall → Bytes × ℕ × Marshall
marshall_take_buf m = (m.buf, m.ind, record m { buf = []; ind = 0 })

-- unmarshall::unmarshall without arguments, and with a buffer
abbrev pub empty_unmarshall : Unmarshall
empty_unmarshall = record { buf = []; sz = 0; ind = 0; ok = false }

abbrev pub new_unmarshall : Bytes → ℕ → Unmarshall
new_unmarshall b sz = record { buf = b; sz = sz; ind = 0; ok = true }

-- unmarshall::take_content; realloc keeps the old bytes, and leaves `memory` behind them.
unfoldable pub take_content : Bytes → Bytes → Unmarshall → Unmarshall
take_content memory s u = record {
  buf = take header_size (u.buf ++ memory) ++ s;
  sz = length s + header_size;
  ind = header_size;
  ok = true;
}

-- unmarshall::take_buf
unfoldable pub unmarshall_take_buf : Unmarshall → Bytes × ℕ × Unmarshall
unmarshall_take_buf u = (u.buf, u.sz, record u { buf = []; sz = 0; ind = 0 })

-- marshall::pack and unmarshall::unpack
pub record Packing : Type 0 where
  pub pack : ℕ → Marshall → Marshall
  pub unpack : Unmarshall → ℕ × Unmarshall

module _ (p : Packing) where
  open p use {pack, unpack}

  -- marshall::pack_req_header; the header is packed in front, and the head goes back.
  unfoldable pub pack_req_header : ReqHeader → Marshall → Marshall
  pack_req_header h m =
      let saved_sz = m.ind in
      let m = record m { ind = size_field } in
      let m = pack h.xid m in
      let m = pack h.proc m in
      let m = pack h.clt_nonce m in
      let m = pack h.srv_nonce m in let m = pack h.xid_rep m in record m { ind = saved_sz }

  -- marshall::pack_reply_header
  unfoldable pub pack_reply_header : ReplyHeader → Marshall → Marshall
  pack_reply_header h m =
      let saved_sz = m.ind in
      let m = record m { ind = size_field } in
      let m = pack h.xid m in let m = pack h.ret m in record m { ind = saved_sz }

  -- unmarshall::unpack_req_header
  unfoldable pub unpack_req_header : Unmarshall → ReqHeader × Unmarshall
  unpack_req_header u =
      let u = record u { ind = size_field } in
      let (xid, u) = unpack u in
      let (proc, u) = unpack u in
      let (clt_nonce, u) = unpack u in
      let (srv_nonce, u) = unpack u in
      let (xid_rep, u) = unpack u in
      (
        record {
          xid = xid;
          proc = proc;
          clt_nonce = clt_nonce;
          srv_nonce = srv_nonce;
          xid_rep = xid_rep;
        },
        record u { ind = header_size },
      )

  -- unmarshall::unpack_reply_header
  unfoldable pub unpack_reply_header : Unmarshall → ReplyHeader × Unmarshall
  unpack_reply_header u =
      let u = record u { ind = size_field } in
      let (xid, u) = unpack u in
      let (ret, u) = unpack u in (record { xid = xid; ret = ret }, record u { ind = header_size })

-- What is left to read.
abbrev pub remaining : Unmarshall → Bytes
remaining u = drop u.ind (take u.sz u.buf)

-- The bytes of a buffer from `off` on, replaced by others.
abbrev pub overwrite : Bytes → ℕ → Bytes → Bytes
overwrite buf off bs = take off buf ++ (bs ++ drop (off + length bs) buf)

-- What the library does by its declarations: an int is four bytes at the head, which moves behind
-- them, and is read back from them.
pub record PackingLaws (p : Packing) : Type 0 where
  pub bytes : ℕ → Bytes
  pub width : (i : ℕ) → length (bytes i) ≡ 4
  pub pack_law :
      (i : ℕ) (m : Marshall)
      → i < 2 ^ 32
      → m.ind + 4 ≤ length m.buf
      → p.pack i m ≡ record m { buf = overwrite m.buf m.ind (bytes i); ind = m.ind + 4 }
  pub unpack_law :
      (i : ℕ) (u : Unmarshall) (rest : Bytes)
      → i < 2 ^ 32
      → u.ok ≡ true
      → remaining u ≡ bytes i ++ rest
      → p.unpack u ≡ (i, record u { ind = u.ind + 4 })
