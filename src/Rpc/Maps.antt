-- ===== src/Rpc/Maps.antt =====
-- Maps are read as they were written (the templates of rpc/marshall.h).
use se.Base.{
  ℕ, ◌%◌, ◌^◌, ◌<◌, ◌≡◌, refl, ap, ◌∙◌, sym, append_assoc, append-nil, Bytes, List, [], ◌∷◌, ◌++◌,
  Bool, true, false, All, All-append, length,
}
use se.Rpc.{Marshall, Unmarshall, get_content, remaining}
use se.Rpc.Wire.{
  Wire, WireLaws, Appends, IsReady, both, both_laws, assign, write_pairs, read_pairs, write_map,
  read_map, write_items, write_vector,
}
use se.Rpc.Vectors.{CarriesWords, items_bytes, write_vector_lem}

module _ {A B : Type 0} (less : A → A → Bool) where
  -- The keys ascend: each is before all that come behind it, and none of those is before it.
  unfoldable pub Ascends : List (A × B) → Type 0
  Ascends [] = Unit {0}
  Ascends (p ∷ d) = All (λ q. (less p.0 q.0 ≡ true) × (less q.0 p.0 ≡ false)) d × Ascends d

  -- A key behind all others goes to the end.
  assign-snoc :
      (a : A) (b : B) (d : List (A × B))
      → All (λ p. (less p.0 a ≡ true) × (less a p.0 ≡ false)) d
      → assign less a b d ≡ d ++ (a, b) ∷ []
  unfolding assign
  assign-snoc a b [] h = refl
  assign-snoc a b ((k, v) ∷ d) ((before, behind), h) =
      rw (behind, before) (ap (◌∷◌ (k, v)) (assign-snoc a b d h))

  -- All keys of the first list are before all of the second.
  unfoldable pub Below : List (A × B) → List (A × B) → Type 0
  Below old d = All (λ q. All (λ p. (less p.0 q.0 ≡ true) × (less q.0 p.0 ≡ false)) old) d

  Below-snoc :
      (old d : List (A × B)) (p : A × B)
      → Below old d
      → All (λ q. (less p.0 q.0 ≡ true) × (less q.0 p.0 ≡ false)) d
      → Below (old ++ p ∷ []) d
  unfolding Below
  Below-snoc old [] p h k = tt
  Below-snoc old (q ∷ d) p h k =
      (All-append _ old (p ∷ []) h.0 (k.0, tt), Below-snoc old d p h.1 k.1)

  Below-nil : (d : List (A × B)) → Below [] d
  unfolding Below
  Below-nil [] = tt
  Below-nil (q ∷ d) = (tt, Below-nil d)

  module _ {word : Wire ℕ} (lw : WireLaws word) {wa : Wire A} {wb : Wire B} (la : WireLaws wa)
      (lb : WireLaws wb) where
    -- The pairs of a map are written like a vector of pairs.
    write_pairs_items :
        (d : List (A × B)) (m : Marshall)
        → write_pairs less word wa wb d m ≡ write_items word (both wa wb) d m
    unfolding write_pairs write_items both
    write_pairs_items [] m = refl
    write_pairs_items ((a, b) ∷ d) m = write_pairs_items d (wb.write b (wa.write a m))

    read_pairs_lem :
        (d old : List (A × B)) (u : Unmarshall) (rest : Bytes)
        → All (λ p. la.Fits p.0 × lb.Fits p.1) d
        → Ascends d
        → Below old d
        → u.ok ≡ true
        → remaining u ≡ items_bytes lw (both_laws la lb) d ++ rest
        → (after : Unmarshall) × (read_pairs less word wa wb (length d) old u ≡ (old ++ d, after))
          × (after.ok ≡ true)
          × (remaining after ≡ rest)
    unfolding read_pairs items_bytes both_laws Ascends Below
    read_pairs_lem [] old u rest h up low good e =
        (u, ap (λ b. (b, u)) (sym (append-nil old)), good, e)
    read_pairs_lem ((a, b) ∷ d) old u rest h up low good e =
        let items : Bytes = items_bytes lw (both_laws la lb) d in
        let p =
          (both_laws la lb).read_law (a, b) u (items ++ rest) h.0 good
            (e ∙ append_assoc (la.bytes a ++ lb.bytes b) items rest) in
        let (after, result, ok, behind) =
          read_pairs_lem d (old ++ (a, b) ∷ []) p.after rest h.1 up.1
            (Below-snoc old d (a, b) low.1 up.0) p.ok p.behind in
        (
          after,
          ap (λ q. read_pairs less word wa wb (length d) (assign less q.0.0 q.0.1 old) q.1) p.result
              ∙ ap (λ o. read_pairs less word wa wb (length d) o p.after)
                  (assign-snoc a b old low.0)
              ∙ result
              ∙ ap (λ x. (x, after)) (append_assoc old ((a, b) ∷ []) d),
          ok,
          behind,
        )

    write_map_lem :
        (d : List (A × B)) (m : Marshall)
        → CarriesWords lw
        → All (λ p. la.Fits p.0 × lb.Fits p.1) d
        → length d < 2 ^ 32
        → IsReady m
        → Appends m
            (write_map less word wa wb d m)
            (lw.bytes (length d) ++ items_bytes lw (both_laws la lb) d)
    unfolding write_map
    write_map_lem d m words h few r =
        rw (write_pairs_items d (word.write (length d % 2 ^ 32) m))
          (unfold write_vector both_laws in write_vector_lem lw (both_laws la lb) d m words h few r)

    -- A map is read from a message that it was written into, up to the message's end, whatever the
    -- variable held before. The keys ascend, keys and values can be carried, and there are fewer
    -- than 2 ^ 32 of them.
    pub read_map-write_map :
        (d old : List (A × B)) (m : Marshall) (u : Unmarshall)
        → CarriesWords lw
        → Ascends d
        → All (λ p. la.Fits p.0 × lb.Fits p.1) d
        → length d < 2 ^ 32
        → IsReady m
        → get_content m ≡ []
        → u.ok ≡ true
        → remaining u ≡ get_content (write_map less word wa wb d m)
        → (after : Unmarshall) × (read_map less word wa wb old u ≡ (d, after))
          × (after.ok ≡ true)
          × (remaining after ≡ [])
    unfolding read_map CarriesWords
    read_map-write_map d old m u words up h few r fresh good e =
        let items : Bytes = items_bytes lw (both_laws la lb) d in
        let content : remaining u ≡ (lw.bytes (length d) ++ items) ++ [] =
          e
          ∙ (write_map_lem d m words h few r).content
          ∙ ap (λ b. b ++ (lw.bytes (length d) ++ items)) fresh
          ∙ sym (append-nil _) in
        let a =
          lw.read_law (length d) u (items ++ []) (words (length d) few) good
            (content ∙ append_assoc (lw.bytes (length d)) items []) in
        let (after, result, ok, behind) =
          read_pairs_lem d [] a.after [] h up (Below-nil d) a.ok a.behind in
        (after, ap (λ q. read_pairs less word wa wb q.0 [] q.1) a.result ∙ result, ok, behind)
