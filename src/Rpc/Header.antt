-- ===== src/Rpc/Header.antt =====
-- The message headers of rpc/marshall.h: what is packed is unpacked.
use se.Base.{
  ℕ, ◌-◌, ◌^◌, ◌≤◌, ◌<◌, ◌≡◌, refl, ap, ◌∙◌, List, [], ◌∷◌, true, arith, take, length, get_or, All,
}
use se.Rpc.{
  ReqHeader, ReplyHeader, Marshall, Unmarshall, Packing, PackingLaws, header_size, size_field,
  get_content, pack_req_header, pack_reply_header, unpack_req_header, unpack_reply_header,
}
use se.Rpc.Spell.{
  pack_all, unpack_all, unpack_all_lem, front, packed, packed-content, packed-remaining,
}

module _ (p : Packing) (laws : PackingLaws p) where
  abbrev req_words : ReqHeader → List ℕ
  req_words h = h.xid ∷ h.proc ∷ h.clt_nonce ∷ h.srv_nonce ∷ h.xid_rep ∷ []

  abbrev reply_words : ReplyHeader → List ℕ
  reply_words h = h.xid ∷ h.ret ∷ []

  pack_req_all :
      (h : ReqHeader) (m : Marshall)
      → pack_req_header p h m
        ≡ record (pack_all p laws (req_words h) (record m { ind = size_field })) { ind = m.ind }
  unfolding pack_req_header pack_all
  pack_req_all h m = refl

  pack_reply_all :
      (h : ReplyHeader) (m : Marshall)
      → pack_reply_header p h m
        ≡ record (pack_all p laws (reply_words h) (record m { ind = size_field })) { ind = m.ind }
  unfolding pack_reply_header pack_all
  pack_reply_all h m = refl

  abbrev as_req : List ℕ × Unmarshall → ReqHeader × Unmarshall
  as_req q = (
    record {
      xid = get_or q.0 0 0;
      proc = get_or q.0 1 0;
      clt_nonce = get_or q.0 2 0;
      srv_nonce = get_or q.0 3 0;
      xid_rep = get_or q.0 4 0;
    },
    record q.1 { ind = header_size },
  )

  abbrev as_reply : List ℕ × Unmarshall → ReplyHeader × Unmarshall
  as_reply q =
      (record { xid = get_or q.0 0 0; ret = get_or q.0 1 0 }, record q.1 { ind = header_size })

  unpack_req_all :
      (u : Unmarshall)
      → unpack_req_header p u ≡ as_req (unpack_all p laws 5 (record u { ind = size_field }))
  unfolding unpack_req_header unpack_all
  unpack_req_all u = refl

  unpack_reply_all :
      (u : Unmarshall)
      → unpack_reply_header p u ≡ as_reply (unpack_all p laws 2 (record u { ind = size_field }))
  unfolding unpack_reply_header unpack_all
  unpack_reply_all u = refl

  -- A request header is read from a message as it was packed into the message's buffer, the head of
  -- the reader stands behind the headers, and the contents of the message are as before. The fields
  -- are 32-bit words, and the headers fit into the buffer.
  pub unpack_req_header-pack_req_header :
      (h : ReqHeader) (m : Marshall) (u : Unmarshall)
      → All (λ i. i < 2 ^ 32) (req_words h)
      → header_size ≤ length m.buf
      → header_size ≤ u.sz
      → u.ok ≡ true
      → u.buf ≡ (pack_req_header p h m).buf
      → (unpack_req_header p u ≡ (h, record u { ind = header_size }))
        × (get_content (pack_req_header p h m) ≡ get_content m)
  unfolding get_content
  unpack_req_header-pack_req_header h m u small room long good e =
      let done : pack_req_header p h m ≡ record m { buf = front p laws (req_words h) m.buf } =
        pack_req_all h m
        ∙ ap {A = Marshall} {B = Marshall} (λ x. record x { ind = m.ind })
            (packed p laws (req_words h) m small room) in
      let start : Unmarshall = record u { ind = size_field } in
      (
        unpack_req_all u
            ∙ ap as_req (
                unpack_all_lem p laws (req_words h) start _ small good (
                  packed-remaining p laws (req_words h) m.buf u room long
                    (e ∙ ap (λ x. x.buf) done))),
        ap get_content done
            ∙ ap (take (m.ind - header_size))
                (packed-content p laws (req_words h) m.buf room (omega arith)),
      )

  -- The same of a reply header.
  pub unpack_reply_header-pack_reply_header :
      (h : ReplyHeader) (m : Marshall) (u : Unmarshall)
      → All (λ i. i < 2 ^ 32) (reply_words h)
      → header_size ≤ length m.buf
      → header_size ≤ u.sz
      → u.ok ≡ true
      → u.buf ≡ (pack_reply_header p h m).buf
      → (unpack_reply_header p u ≡ (h, record u { ind = header_size }))
        × (get_content (pack_reply_header p h m) ≡ get_content m)
  unfolding get_content
  unpack_reply_header-pack_reply_header h m u small room long good e =
      let done : pack_reply_header p h m ≡ record m { buf = front p laws (reply_words h) m.buf } =
        pack_reply_all h m
        ∙ ap {A = Marshall} {B = Marshall} (λ x. record x { ind = m.ind })
            (packed p laws (reply_words h) m small (omega (arith, room))) in
      let start : Unmarshall = record u { ind = size_field } in
      (
        unpack_reply_all u
            ∙ ap as_reply (
                unpack_all_lem p laws (reply_words h) start _ small good (
                  packed-remaining p laws (reply_words h) m.buf u (omega (arith, room))
                    (omega (arith, long)) (e ∙ ap (λ x. x.buf) done))),
        ap get_content done
            ∙ ap (take (m.ind - header_size))
                (packed-content p laws (reply_words h) m.buf (omega (arith, room)) (omega arith)),
      )
