-- ===== src/Flood/Seen/Memory.antt =====
-- How long the cache remembers a packet while others come and go.
use wifipi.Prelude.Dict.{
  behind-remove, get-remove, behind-touch, behind-touch_self, get-touch, remove, behind,
  get-remove_self, behind-evict, get, evict,
}
use wifipi.Prelude.Time.{Micros}
use wifipi.Flood.Seen.{SeenCache, seen, add}
use wifipi.Flood.Seen.Laws.{add_lem, seen_absent, seen_stored}
use wifipi.Prelude.{
  ltb, Bool-cases, [], inr, inl, ◌∷◌, ◌++◌, ge→ltb, Option-cases, true, false, suc, some, ◌+◌,
  arith, ◌≢◌, ◌<◌, ◌≤◌, ℕ, ◌≡◌, Eq, refl,
}

module _ {ℓ} {K : Type ℓ} ⦃e : Eq K⦄ where
  -- The key is stored with the time `t`, and is safe from eviction by `m` uses of other keys.
  pub record Known (k : K) (t : Micros) (m : ℕ) (c : SeenCache K) : Type ℓ where
    pub stored : get c.entries k ≡ some t
    pub safe : behind k c.entries + m < c.capacity

  pub Known-fewer :
      (k : K) (t : Micros) (m n : ℕ) (c : SeenCache K) → n ≤ m → Known k t m c → Known k t n c
  Known-fewer k t m n c h w = record { stored = w.stored; safe = omega (arith, w.safe) }

  -- a use of another key, with the oldest entries evicted, or none
  Known-touch :
      (k j : K) (t w : Micros) (m : ℕ) (c : SeenCache K)
      → k ≢ j
      → Known k t (suc m) c
      → Known k t m (record c { entries = remove j c.entries ++ (j, w) ∷ [] })
  Known-touch k j t w m c ne h = record {
    stored = ground (arith, get-touch j k w c.entries, e.beq_iff j k, h.stored);
    safe = omega (arith, behind-touch k j t w c.entries ne h.stored, h.safe);
  }

  Known-evict :
      (k : K) (t : Micros) (m : ℕ) (c : SeenCache K)
      → Known k t m c
      → Known k t m (record c { entries = evict c.capacity c.entries })
  Known-evict k t m c h =
      let (kept, same) = behind-evict c.capacity k t c.entries h.stored (omega (arith, h.safe)) in
      record { stored = kept; safe = omega (arith, same, h.safe) }

  pub Known-add :
      (k j : K) (t now : Micros) (m : ℕ) (c : SeenCache K)
      → k ≢ j
      → Known k t (suc m) c
      → Known k t m (add now j c)
  Known-add k j t now m c ne h = rw (add_lem now j c) (
      Known-evict k t m (record c { entries = remove j c.entries ++ (j, now) ∷ [] })
        (Known-touch k j t now m c ne h))

  pub Known-add_self :
      (k : K) (now : Micros) (m : ℕ) (c : SeenCache K)
      → m < c.capacity
      → Known k now m (add now k c)
  Known-add_self k now m c h =
      let gone = get-remove_self k c.entries in
      rw (add_lem now k c) (
        Known-evict k now m (record c { entries = remove k c.entries ++ (k, now) ∷ [] })
          (record {
            stored = ground (arith, get-touch k k now c.entries, e.beq_iff k k);
            safe = omega (arith, behind-touch_self k now (remove k c.entries) gone, h);
          }))

  -- A look-up of another key counts as a use only where it hits.
  pub Known-seen :
      (k j : K) (t now : Micros) (m : ℕ) (c : SeenCache K)
      → k ≢ j
      → Known k t (suc m) c
      → Known k t m (seen now j c).1
        × ((seen now j c).0 ≡ false → Known k t (suc m) (seen now j c).1)
  Known-seen k j t now m c ne h = elim (Option-cases (get c.entries j)) [
    | inl absent ↦
        rw (seen_absent now j c absent) (Known-fewer k t (suc m) m c (omega arith) h, λ _. h)
    | inr (ts, there) ↦
        rw (seen_stored now ts j c there) (elim (Bool-cases (ltb (ts + c.ttl) now)) [
          | inl late ↦
              let left : Known k t (suc m) (record c { entries = remove j c.entries }) = record {
                stored = ground (arith, get-remove j k c.entries, e.beq_iff j k, h.stored);
                safe = omega (arith, behind-remove k j c.entries ne, h.safe);
              } in
              rw late (
                Known-fewer k t (suc m) m (record c { entries = remove j c.entries }) (omega arith)
                    left,
                λ _. left,
              )
          | inr fresh ↦ rw fresh (Known-touch k j t ts m c ne h, λ miss. cc)
        ])
  ]

  -- A known packet is recognised until its time to live is over, and stays known.
  pub Known-seen_self :
      (k : K) (t now : Micros) (m : ℕ) (c : SeenCache K)
      → Known k t m c
      → now ≤ t + c.ttl
      → ((seen now k c).0 ≡ true) × Known k t m (seen now k c).1
  Known-seen_self k t now m c h young =
      let gone = get-remove_self k c.entries in
      rw (seen_stored now t k c h.stored, ge→ltb (t + c.ttl) now young)
        (
          refl,
          record {
            stored = ground (arith, get-touch k k t c.entries, e.beq_iff k k);
            safe = omega (arith, behind-touch_self k t (remove k c.entries) gone, h.safe);
          },
        )

  pub seen_keeps :
      (now : Micros) (k : K) (c : SeenCache K)
      → ((seen now k c).1.capacity ≡ c.capacity) × ((seen now k c).1.ttl ≡ c.ttl)
  unfolding seen
  seen_keeps now k c = ground arith
