-- ===== src/Flood/Seen/Laws.antt =====
-- The cache stays bounded, and remembers what it should.
use wifipi.Prelude.Dict.{
  length-remove, move_to_end_lem, Distinct-remove, length-remove-le, get-remove_self,
  get-evict_last, get, Distinct-touch, Distinct-evict, move_to_end-set, remove, length-evict,
  Distinct, evict,
}
use wifipi.Prelude.Time.{Micros}
use wifipi.Prelude.{
  length-append, true, Bool-cases, ltb, if◌then◌else◌, ◌+◌, inr, false, leb, none, inl, some, ◌<◌,
  Option-cases, [], ◌∷◌, ◌++◌, arith, ◌≡◌, ◌≤◌, length, Eq,
}
use wifipi.Flood.Seen.{SeenCache, seen, add}

module _ {ℓ} {K : Type ℓ} ⦃e : Eq K⦄ where
  pub record IsValid (c : SeenCache K) : Type ℓ where
    pub bounded : length c.entries ≤ c.capacity
    pub distinct : Distinct c.entries

  pub add_lem :
      (now : Micros) (k : K) (c : SeenCache K)
      → add now k c ≡ record c { entries = evict c.capacity (remove k c.entries ++ (k, now) ∷ []) }
  unfolding add
  add_lem now k c = rw (move_to_end-set k now c.entries)

  -- `add` never leaves more entries than the capacity, nor a key twice.
  pub add-IsValid : (now : Micros) (k : K) (c : SeenCache K) → IsValid c → IsValid (add now k c)
  add-IsValid now k c v =
      let touched = remove k c.entries ++ (k, now) ∷ [] in
      rw (add_lem now k c) (record {
        bounded = omega (arith, length-evict c.capacity touched);
        distinct = Distinct-evict c.capacity touched (Distinct-touch k now c.entries v.distinct);
      })

  -- What `seen` answers and leaves, by what is stored.
  pub seen_absent :
      (now : Micros) (k : K) (c : SeenCache K) → get c.entries k ≡ none → seen now k c ≡ (false, c)
  unfolding seen
  seen_absent now k c h = rw (h, seen)

  pub seen_stored :
      (now ts : Micros) (k : K) (c : SeenCache K)
      → get c.entries k ≡ some ts
      → seen now k c ≡ (
          if ltb (ts + c.ttl) now
          then (false, record c { entries = remove k c.entries })
          else (true, record c { entries = remove k c.entries ++ (k, ts) ∷ [] }))
  unfolding seen
  seen_stored now ts k c h = rw (h, seen, move_to_end_lem k ts c.entries h)

  pub seen-IsValid : (now : Micros) (k : K) (c : SeenCache K) → IsValid c → IsValid (seen now k c).1
  seen-IsValid now k c v = elim (Option-cases (get c.entries k)) [
    | inl absent ↦ rw (seen_absent now k c absent) v
    | inr (ts, stored) ↦
        rw (seen_stored now ts k c stored) (elim (Bool-cases (ltb (ts + c.ttl) now)) [
          | inl late ↦ rw late (record {
            bounded = omega (arith, v.bounded, length-remove-le k c.entries);
            distinct = Distinct-remove k c.entries v.distinct;
          })
          | inr fresh ↦ rw fresh (record {
            bounded = omega (
              arith,
              v.bounded,
              length-remove k ts c.entries v.distinct stored,
              length-append (remove k c.entries) ((k, ts) ∷ []),
            );
            distinct = Distinct-touch k ts c.entries v.distinct;
          })
        ])
  ]

  get-add_self :
      (now : Micros) (k : K) (c : SeenCache K)
      → 0 < c.capacity
      → get (add now k c).entries k ≡ some now
  get-add_self now k c h =
      rw (add_lem now k c)
        (get-evict_last c.capacity k now (remove k c.entries) h (get-remove_self k c.entries))

  -- A packet that was added to a cache of positive capacity is known until its time to live is
  -- over, and then no more.
  pub seen-add :
      (added now : Micros) (k : K) (c : SeenCache K)
      → 0 < c.capacity
      → (seen now k (add added k c)).0 ≡ leb now (added + c.ttl)
  seen-add added now k c h =
      rw (seen_stored now added k (add added k c) (get-add_self added k c h))
        (rw (add_lem added k c) (ground arith))
