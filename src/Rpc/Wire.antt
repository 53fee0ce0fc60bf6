-- ===== src/Rpc/Wire.antt =====
-- `operator<<` and `operator>>` of rpc/marshall.h and extent_protocol.h. Those of the base types
-- are in a binary, so they are arguments; those of vectors, maps and attributes are made of them.
use se.Base.{
  ℕ, zero, suc, ◌%◌, ◌^◌, ◌≤◌, ◌≡◌, ap, ◌∙◌, append_assoc, Bytes, List, [], ◌∷◌, ◌++◌, Bool, true,
  if◌then◌else◌, length,
}
use se.InodeManager.{Attr}
use se.Rpc.{Marshall, Unmarshall, header_size, get_content, remaining}

-- The two operators of a type, and what a variable of the type holds before it is set. The reader
-- takes the old value of the variable that it reads into.
pub record Wire (A : Type 0) : Type 0 where
  pub blank : A
  pub write : A → Marshall → Marshall
  pub read : A → Unmarshall → A × Unmarshall

-- Two values, one behind the other.
unfoldable pub both : {A B : Type 0} → Wire A → Wire B → Wire (A × B)
both w x = record {
  blank = (w.blank, x.blank);
  write = λ p m. x.write p.1 (w.write p.0 m);
  read = λ old u. let (a, u) = w.read old.0 u in let (b, u) = x.read old.1 u in ((a, b), u);
}

module _ (word : Wire ℕ) {C : Type 0} (w : Wire C) where
  unfoldable pub write_items : List C → Marshall → Marshall
  write_items [] m = m
  write_items (c ∷ v) m = write_items v (w.write c m)

  -- operator<< of a vector
  unfoldable pub write_vector : List C → Marshall → Marshall
  write_vector v m = write_items v (word.write (length v % 2 ^ 32) m)

  unfoldable pub read_items : ℕ → List C → Unmarshall → List C × Unmarshall
  read_items zero v u = (v, u)
  read_items (suc n) v u = let (z, u) = w.read w.blank u in read_items n (v ++ z ∷ []) u

  -- operator>> of a vector: the items go behind those that the vector has.
  unfoldable pub read_vector : List C → Unmarshall → List C × Unmarshall
  read_vector v u = let (n, u) = word.read word.blank u in read_items n v u

  unfoldable pub vector_wire : Wire (List C)
  vector_wire = record { blank = []; write = write_vector; read = read_vector }

-- `d[a] = b` on a std::map, a list in the order of its keys.
module _ {A B : Type 0} (less : A → A → Bool) where
  unfoldable pub assign : A → B → List (A × B) → List (A × B)
  assign a b [] = (a, b) ∷ []
  assign a b ((k, v) ∷ d) =
      let rest = assign a b d in
      if less a k then (a, b) ∷ (k, v) ∷ d else if less k a then (k, v) ∷ rest else (k, b) ∷ d

  module _ (word : Wire ℕ) (wa : Wire A) (wb : Wire B) where
    unfoldable pub write_pairs : List (A × B) → Marshall → Marshall
    write_pairs [] m = m
    write_pairs ((a, b) ∷ d) m = write_pairs d (wb.write b (wa.write a m))

    -- operator<< of a map
    unfoldable pub write_map : List (A × B) → Marshall → Marshall
    write_map d m = write_pairs d (word.write (length d % 2 ^ 32) m)

    unfoldable pub read_pairs : ℕ → List (A × B) → Unmarshall → List (A × B) × Unmarshall
    read_pairs zero d u = (d, u)
    read_pairs (suc n) d u =
        let (a, u) = wa.read wa.blank u in
        let (b, u) = wb.read wb.blank u in read_pairs n (assign a b d) u

    -- operator>> of a map, which is cleared first.
    unfoldable pub read_map : List (A × B) → Unmarshall → List (A × B) × Unmarshall
    read_map d u = let (n, u) = word.read word.blank u in read_pairs n [] u

    unfoldable pub map_wire : Wire (List (A × B))
    map_wire = record { blank = []; write = write_map; read = read_map }

module _ (word : Wire ℕ) where
  -- operator<< of extent_protocol::attr
  unfoldable pub write_attr : Attr → Marshall → Marshall
  write_attr a m =
      let m = word.write a.type m in
      let m = word.write a.atime m in
      let m = word.write a.mtime m in let m = word.write a.ctime m in word.write a.size m

  -- operator>> of extent_protocol::attr
  unfoldable pub read_attr : Attr → Unmarshall → Attr × Unmarshall
  read_attr a u =
      let (type, u) = word.read a.type u in
      let (atime, u) = word.read a.atime u in
      let (mtime, u) = word.read a.mtime u in
      let (ctime, u) = word.read a.ctime u in
      let (size, u) = word.read a.size u in
      (record { type = type; atime = atime; mtime = mtime; ctime = ctime; size = size }, u)

  unfoldable pub attr_wire : Wire Attr
  attr_wire = record {
    blank = record {
      type = word.blank;
      atime = word.blank;
      mtime = word.blank;
      ctime = word.blank;
      size = word.blank;
    };
    write = write_attr;
    read = read_attr;
  }

-- The head of a message stands behind the room for its header.
abbrev pub IsReady : Marshall → Type 0
IsReady m = (header_size ≤ m.ind) × (m.ind ≤ length m.buf)

-- What writing does to a message.
pub record Appends (m t : Marshall) (bs : Bytes) : Type 0 where
  pub ready : IsReady t
  pub content : get_content t ≡ get_content m ++ bs

-- What reading finds.
pub record Reads {A : Type 0} (w : Wire A) (u : Unmarshall) (a : A) (rest : Bytes) : Type 0 where
  pub after : Unmarshall
  pub result : w.read w.blank u ≡ (a, after)
  pub ok : after.ok ≡ true
  pub behind : remaining after ≡ rest

-- A type of values that the wire can carry, each as some bytes: writing appends them to the message,
-- and a reader that has them in front reads the value and goes behind them.
pub record WireLaws {A : Type 0} (w : Wire A) : Type 1 where
  pub Fits : A → Type 0
  pub bytes : A → Bytes
  pub write_law : (a : A) (m : Marshall) → Fits a → IsReady m → Appends m (w.write a m) (bytes a)
  pub read_law :
      (a : A) (u : Unmarshall) (rest : Bytes)
      → Fits a
      → u.ok ≡ true
      → remaining u ≡ bytes a ++ rest
      → Reads w u a rest

pub Appends-trans :
    {m t u : Marshall} {bs cs : Bytes} → Appends m t bs → Appends t u cs → Appends m u (bs ++ cs)
Appends-trans {m} {bs = bs} {cs = cs} a b = record {
  ready = b.ready;
  content = b.content ∙ ap (λ c. c ++ cs) a.content ∙ append_assoc (get_content m) bs cs;
}

unfoldable pub both_laws :
    {A B : Type 0} {w : Wire A} {x : Wire B} → WireLaws w → WireLaws x → WireLaws (both w x)
unfolding both
both_laws {w = w} {x = x} l k = record {
  Fits = λ p. l.Fits p.0 × k.Fits p.1;
  bytes = λ p. l.bytes p.0 ++ k.bytes p.1;
  write_law = λ p m h r.
      let a = l.write_law p.0 m h.0 r in
      Appends-trans a (k.write_law p.1 (w.write p.0 m) h.1 a.ready);
  read_law = λ p u rest h good e.
      let a = l.read_law p.0 u (k.bytes p.1 ++ rest) h.0 good (e ∙ append_assoc _ _ rest) in
      let b = k.read_law p.1 a.after rest h.1 a.ok a.behind in
      record {
        after = b.after;
        result =
            ap (λ q. ((q.0, (x.read x.blank q.1).0), (x.read x.blank q.1).1)) a.result
            ∙ ap (λ q. ((p.0, q.0), q.1)) b.result;
        ok = b.ok;
        behind = b.behind;
      };
}
