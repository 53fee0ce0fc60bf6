-- ===== src/Rpc/Vectors.antt =====
-- Vectors are read as they were written (the templates of rpc/marshall.h).
use se.Base.{
  ℕ, ◌%◌, ◌^◌, ◌<◌, ◌≡◌, ap, ◌∙◌, sym, append_assoc, append-nil, Bytes, List, [], ◌∷◌, ◌++◌, true,
  arith, All, length,
}
use se.Rpc.{Marshall, Unmarshall, get_content, remaining}
use se.Rpc.Wire.{
  Wire, WireLaws, Appends, Appends-trans, IsReady, write_items, read_items, write_vector,
  read_vector, vector_wire,
}

-- Numbers below 2 ^ 32 can be carried.
unfoldable pub CarriesWords : {word : Wire ℕ} → WireLaws word → Type 0
CarriesWords l = (n : ℕ) → n < 2 ^ 32 → l.Fits n

module _ {word : Wire ℕ} (lw : WireLaws word) {C : Type 0} {w : Wire C} (l : WireLaws w) where
  unfoldable pub items_bytes : List C → Bytes
  items_bytes [] = []
  items_bytes (c ∷ v) = l.bytes c ++ items_bytes v

  write_items_lem :
      (v : List C) (m : Marshall)
      → All l.Fits v
      → IsReady m
      → Appends m (write_items word w v m) (items_bytes v)
  unfolding write_items items_bytes
  write_items_lem [] m h r = record { ready = r; content = sym (append-nil _) }
  write_items_lem (c ∷ v) m h r =
      let a = l.write_law c m h.0 r in Appends-trans a (write_items_lem v (w.write c m) h.1 a.ready)

  -- What is read goes behind what the vector had.
  pub record ReadsItems (n : ℕ) (old v : List C) (u : Unmarshall) (rest : Bytes) : Type 0 where
    pub after : Unmarshall
    pub result : read_items word w n old u ≡ (old ++ v, after)
    pub ok : after.ok ≡ true
    pub behind : remaining after ≡ rest

  read_items_lem :
      (v old : List C) (u : Unmarshall) (rest : Bytes)
      → All l.Fits v
      → u.ok ≡ true
      → remaining u ≡ items_bytes v ++ rest
      → ReadsItems (length v) old v u rest
  unfolding read_items items_bytes
  read_items_lem [] old u rest h good e = record {
    after = u;
    result = ap (λ b. (b, u)) (sym (append-nil old));
    ok = good;
    behind = e;
  }
  read_items_lem (c ∷ v) old u rest h good e =
      let a =
        l.read_law c u (items_bytes v ++ rest) h.0 good
          (e ∙ append_assoc (l.bytes c) (items_bytes v) rest) in
      let b = read_items_lem v (old ++ c ∷ []) a.after rest h.1 a.ok a.behind in
      record {
        after = b.after;
        result =
            ap (λ q. read_items word w (length v) (old ++ q.0 ∷ []) q.1) a.result
            ∙ b.result
            ∙ ap (λ x. (x, b.after)) (append_assoc old (c ∷ []) v);
        ok = b.ok;
        behind = b.behind;
      }

  size_same : (v : List C) → length v < 2 ^ 32 → length v % 2 ^ 32 ≡ length v
  size_same v few = omega arith

  pub write_vector_lem :
      (v : List C) (m : Marshall)
      → CarriesWords lw
      → All l.Fits v
      → length v < 2 ^ 32
      → IsReady m
      → Appends m (write_vector word w v m) (lw.bytes (length v) ++ items_bytes v)
  unfolding write_vector CarriesWords
  write_vector_lem v m words h few r =
      let a = lw.write_law (length v) m (words (length v) few) r in
      rw (size_same v few) (Appends-trans a (write_items_lem v (word.write (length v) m) h a.ready))

  pub read_vector_lem :
      (v old : List C) (u : Unmarshall) (rest : Bytes)
      → CarriesWords lw
      → All l.Fits v
      → length v < 2 ^ 32
      → u.ok ≡ true
      → remaining u ≡ (lw.bytes (length v) ++ items_bytes v) ++ rest
      → (after : Unmarshall) × (read_vector word w old u ≡ (old ++ v, after))
        × (after.ok ≡ true)
        × (remaining after ≡ rest)
  unfolding read_vector CarriesWords
  read_vector_lem v old u rest words h few good e =
      let a =
        lw.read_law (length v) u (items_bytes v ++ rest) (words (length v) few) good
          (e ∙ append_assoc (lw.bytes (length v)) (items_bytes v) rest) in
      let b = read_items_lem v old a.after rest h a.ok a.behind in
      (b.after, ap (λ q. read_items word w q.0 old q.1) a.result ∙ b.result, b.ok, b.behind)

  -- A vector is read from a message that it was written into, up to the message's end; what is read
  -- goes behind the items that the vector had before, which are not cleared. The items can be
  -- carried, and are fewer than 2 ^ 32.
  pub read_vector-write_vector :
      (v old : List C) (m : Marshall) (u : Unmarshall)
      → CarriesWords lw
      → All l.Fits v
      → length v < 2 ^ 32
      → IsReady m
      → get_content m ≡ []
      → u.ok ≡ true
      → remaining u ≡ get_content (write_vector word w v m)
      → (after : Unmarshall) × (read_vector word w old u ≡ (old ++ v, after))
        × (after.ok ≡ true)
        × (remaining after ≡ [])
  read_vector-write_vector v old m u words h few r fresh good e =
      read_vector_lem v old u [] words h few good (
        e
        ∙ (write_vector_lem v m words h few r).content
        ∙ ap (λ b. b ++ (lw.bytes (length v) ++ items_bytes v)) fresh
        ∙ sym (append-nil _))

  -- So vectors can be carried.
  unfoldable pub vector_laws : CarriesWords lw → WireLaws (vector_wire word w)
  unfolding vector_wire
  vector_laws words = record {
    Fits = λ v. All l.Fits v × (length v < 2 ^ 32);
    bytes = λ v. lw.bytes (length v) ++ items_bytes v;
    write_law = λ v m h r. write_vector_lem v m words h.0 h.1 r;
    read_law = λ v u rest h good e.
        let (after, result, ok, behind) = read_vector_lem v [] u rest words h.0 h.1 good e in
        record { after = after; result = result; ok = ok; behind = behind };
  }
