-- ===== src/Rpc/Buffers.antt =====
-- Bytes in the buffers of rpc/marshall.h: what is put at the head of a message lies behind its
-- contents, and a string that a reader takes is what it reads.
use se.Base.{
  ℕ, zero, suc, ◌+◌, ◌-◌, ◌≤◌, ◌≡◌, refl, ap, ◌∙◌, sym, append_assoc, Bytes, [], ◌∷◌, ◌++◌, true,
  arith, take, drop, length, length-append, length-take, length-drop, take-append-drop, take-append,
  drop-append, take_all,
}
use se.Rpc.{Marshall, Unmarshall, header_size, get_content, take_content, remaining, overwrite}
use se.Rpc.Spell.{drop-drop, take_past}
use se.Rpc.Wire.{IsReady, Appends}

pub drop_front : (k : ℕ) (xs ys : Bytes) → k ≤ length xs → drop k (xs ++ ys) ≡ drop k xs ++ ys
drop_front zero xs ys h = refl
drop_front (suc k) [] ys h = absurd (omega arith)
drop_front (suc k) (x ∷ xs) ys h = drop_front k xs ys (omega arith)

-- The contents are the front of the buffer without the header.
content_front : (m : Marshall) → IsReady m → get_content m ≡ drop header_size (take m.ind m.buf)
unfolding get_content
content_front m (low, inside) =
    let front : Bytes = take m.ind m.buf in
    let long : length front ≡ m.ind = omega (arith, length-take m.ind m.buf) in
    let size : m.ind - header_size ≡ length (drop header_size front) =
      omega (arith, length-drop header_size front, long) in
    ap (λ b. take (m.ind - header_size) (drop header_size b)) (sym (take-append-drop m.ind m.buf))
    ∙ ap (take (m.ind - header_size))
        (drop_front header_size front (drop m.ind m.buf) (omega (arith, long)))
    ∙ ap (λ n. take n (drop header_size front ++ drop m.ind m.buf)) size
    ∙ take-append (drop header_size front) (drop m.ind m.buf)

-- Bytes put at the head of a message are appended to its contents, if the buffer has room.
pub overwrite-Appends :
    (m : Marshall) (bs : Bytes)
    → IsReady m
    → Appends m (record m { buf = overwrite m.buf m.ind bs; ind = m.ind + length bs }) bs
overwrite-Appends m bs (low, inside) =
    let front : Bytes = take m.ind m.buf in
    let back : Bytes = drop (m.ind + length bs) m.buf in
    let long : length front ≡ m.ind = omega (arith, length-take m.ind m.buf) in
    let t : Marshall = record m { buf = overwrite m.buf m.ind bs; ind = m.ind + length bs } in
    let ready : IsReady t =
      (omega arith, omega (arith, length-append front (bs ++ back), length-append bs back, long)) in
    let size : m.ind + length bs ≡ length (front ++ bs) =
      omega (arith, length-append front bs, long) in
    record {
      ready = ready;
      content =
          content_front t ready
          ∙ ap (λ b. drop header_size (take (m.ind + length bs) b))
              (sym (append_assoc front bs back))
          ∙ ap (λ n. drop header_size (take n ((front ++ bs) ++ back))) size
          ∙ ap (drop header_size) (take-append (front ++ bs) back)
          ∙ drop_front header_size front bs (omega (arith, long))
          ∙ ap (λ c. c ++ bs) (sym (content_front m (low, inside)));
    }

-- A reader that takes a string has it to read, behind room for a header.
pub take_content-remaining :
    (memory s : Bytes) (u : Unmarshall)
    → header_size ≤ length (u.buf ++ memory)
    → (remaining (take_content memory s u) ≡ s) × ((take_content memory s u).ok ≡ true)
unfolding take_content
take_content-remaining memory s u room =
    let front : Bytes = take header_size (u.buf ++ memory) in
    let long : length front ≡ 24 = omega (arith, length-take header_size (u.buf ++ memory), room) in
    let whole : length s + 24 ≡ length front + length s = omega (arith, long) in
    (
      ap (λ n. drop 24 (take n (front ++ s))) whole
          ∙ ap (drop 24) (take_past front s (length s))
          ∙ ap (λ b. drop 24 (front ++ b)) (take_all (length s) s (omega arith))
          ∙ ap (λ n. drop n (front ++ s)) (sym long)
          ∙ drop-append front s,
      refl,
    )

-- Reading on by k bytes.
pub remaining-skip :
    (u : Unmarshall) (k : ℕ) → remaining (record u { ind = u.ind + k }) ≡ drop k (remaining u)
remaining-skip u k = drop-drop u.ind k (take u.sz u.buf)
