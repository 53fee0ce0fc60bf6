-- ===== src/Tests/Headers.antt =====
-- Ints packed as four bytes, the least one first, and a request header in a message.
use se.Base.{ℕ, ◌+◌, ◌≡◌, refl, ap, ◌∙◌, arith, length, take}
use se.Inode.{to_bytes, from_bytes}
use se.Inode.Layout.{word_bytes}
use se.Rpc.{
  overwrite, Packing, PackingLaws, ReqHeader, Marshall, new_unmarshall, header_size, get_content,
  pack_req_header, unpack_req_header, remaining,
}
use se.Rpc.Header.{unpack_req_header-pack_req_header}
use se.Tests.Wires.{put_bytes, skip, memory_room}
use se.Tests.Rpc.{fresh}

abbrev pub four_bytes : Packing
four_bytes = record {
  pack = λ i m. put_bytes (to_bytes 4 i) m;
  unpack = λ u. (from_bytes (take 4 (remaining u)), skip 4 u);
}

pub width : (i : ℕ) → length (to_bytes 4 i) ≡ 4
unfolding to_bytes
width i = refl

abbrev pub four_bytes_laws : PackingLaws four_bytes
four_bytes_laws = record {
  bytes = λ i. to_bytes 4 i;
  width = width;
  pack_law = λ i m h r.
      ap (λ n. record m { buf = overwrite m.buf m.ind (to_bytes 4 i); ind = m.ind + n }) (width i);
  unpack_law = λ i u rest h good e.
      ap (λ n. (n, skip 4 u)) (ap (λ b. from_bytes (take 4 b)) e ∙ word_bytes i rest h);
}

abbrev pub some_request : ReqHeader
some_request = record {
  xid = 77;
  proc = 0x6002;
  clt_nonce = 123456;
  srv_nonce = 654321;
  xid_rep = 76;
}

abbrev pub message : Marshall
message = pack_req_header four_bytes some_request fresh

unpack_req_header-pack_req_header_example :
    (unpack_req_header four_bytes (new_unmarshall message.buf 24)
      ≡ (some_request, record (new_unmarshall message.buf 24) { ind = header_size }))
    × (get_content message ≡ get_content fresh)
unpack_req_header-pack_req_header_example =
    unpack_req_header-pack_req_header four_bytes four_bytes_laws some_request fresh
      (new_unmarshall message.buf 24)
      (omega arith, (omega arith, (omega arith, (omega arith, (omega arith, tt))))) memory_room
      (omega arith) refl refl
