-- ===== src/Routes/Cold/Refinement.antt =====
-- The cold store against a map that every announce updates: `buffer`, `flush` and `maybe_flush`.
use wifipi.Prelude.{
  not, ◌&&◌, ◌+◌, ◌≡◌, refl, ap, sym, ◌∙◌, Option, none, some, List, [], ◌∷◌, ◌==◌, list_eq, eq_iff,
  length, leb, nat_beq, inl, inr, Bool-cases, if◌then◌else◌,
}
use wifipi.Prelude.Dict.{get, set, get-set, Distinct-set}
use wifipi.Prelude.Time.{Micros}
use wifipi.Bytes.{Bytes}
use wifipi.Routes.Entry.{Name, flush_entries, flush_seconds}
use wifipi.Routes.Cold.{
  ColdStore, Row, Buffered, merge, or_bytes, or_name, coalesce, flush, buffer, maybe_flush, lookup,
}
use wifipi.Routes.Cold.Laws.{IsValid, flushed, upserted, flush-eq, get-upsert_all, flush_lem}
use wifipi.Routes.Cold.Replay.{
  Told, Op, tell, flush_now, flush_if_due, apply, run, Fact, fact_of, view, learned, replay, IsKey,
  AreKeyed,
}

or_bytes-coalesce : (a b : Option Bytes) → IsKey a → or_bytes a b ≡ coalesce a b
or_bytes-coalesce none b k = refl
or_bytes-coalesce (some []) b k = absurd k
or_bytes-coalesce (some (x ∷ xs)) b k = refl

coalesce_assoc : (a b c : Option Bytes) → coalesce (coalesce a b) c ≡ coalesce a (coalesce b c)
coalesce_assoc none b c = refl
coalesce_assoc (some x) b c = refl

or_name_assoc : (a b c : Name) → or_name (or_name a b) c ≡ or_name a (or_name b c)
or_name_assoc [] b c = refl
or_name_assoc (x ∷ a) b c = refl

-- what `buffer` stores for an announce
abbrev buffered : Told → Option Buffered → Buffered
buffered m held = record {
  next_hop = m.next_hop;
  hops = m.hops;
  rssi = m.rssi;
  last_seen = m.last_seen;
  extras = merge held m.extras;
}

fact-buffered :
    (id : Bytes) (m : Told) (row : Option Row) (held : Option Buffered)
    → IsKey m.extras.sign_pub
    → IsKey m.extras.encrypt_pub
    → fact_of (flushed id row (some (buffered m held)))
      ≡ some (learned m (fact_of (flushed id row held)))
fact-buffered id m none none s e = refl
fact-buffered id m (some row) none s e = refl
fact-buffered id m none (some b) s e =
    rw
      (
        or_bytes-coalesce m.extras.sign_pub b.extras.sign_pub s,
        or_bytes-coalesce m.extras.encrypt_pub b.extras.encrypt_pub e,
      )
      refl
fact-buffered id m (some row) (some b) s e =
    rw
      (
        or_bytes-coalesce m.extras.sign_pub b.extras.sign_pub s,
        or_bytes-coalesce m.extras.encrypt_pub b.extras.encrypt_pub e,
        coalesce_assoc m.extras.sign_pub b.extras.sign_pub row.sign_pub,
        coalesce_assoc m.extras.encrypt_pub b.extras.encrypt_pub row.encrypt_pub,
        or_name_assoc m.extras.name b.extras.name row.name,
      )
      refl

flushed-upserted :
    (id : Bytes) (row : Option Row) (b : Option Buffered)
    → flushed id (upserted row b) none ≡ flushed id row b
flushed-upserted id none none = refl
flushed-upserted id none (some b) = refl
flushed-upserted id (some row) none = refl
flushed-upserted id (some row) (some b) = refl

view-flush :
    (now : Micros) (c : ColdStore) (id : Bytes) → IsValid c → view (flush now c).1 id ≡ view c id
view-flush now c id v = rw (flush-eq now c) (
    ap (λ row. fact_of (flushed id row (get {V = Buffered} [] id)))
      (get-upsert_all id c.buf c.rows v.one_each)
    ∙ (unfold get in ap fact_of (flushed-upserted id (get c.rows id) (get c.buf id))))

flush-IsValid : (now : Micros) (c : ColdStore) → IsValid c → IsValid (flush now c).1
flush-IsValid now c v = (flush_lem now c v).2

view-maybe_flush :
    (now : Micros) (c : ColdStore) (id : Bytes)
    → IsValid c
    → (view (maybe_flush now c).1 id ≡ view c id) × IsValid (maybe_flush now c).1
unfolding maybe_flush
view-maybe_flush now c id v =
    elim (Bool-cases (not (nat_beq (length c.buf) 0) && leb (c.last_flush + flush_seconds) now)) [
      | inl ready ↦ rw ready (view-flush now c id v, flush-IsValid now c v)
      | inr early ↦ rw early (refl, v)
    ]

-- the store before the flush that a full buffer brings
abbrev told : Told → ColdStore → ColdStore
told m c = record c { buf = set m.node_id (buffered m (get c.buf m.node_id)) c.buf }

view-told :
    (m : Told) (c : ColdStore) (id : Bytes)
    → IsKey m.extras.sign_pub
    → IsKey m.extras.encrypt_pub
    → view (told m c) id ≡ (if m.node_id == id then some (learned m (view c id)) else view c id)
view-told m c id s e = elim (Bool-cases (m.node_id == id)) [
  | inl same ↦
      let here : m.node_id ≡ id = (eq_iff m.node_id id).0 same in
      rw (get-set m.node_id id (buffered m (get c.buf m.node_id)) c.buf, same)
        (ap (λ j. fact_of (flushed id (get c.rows id) (some (buffered m (get c.buf j))))) here
          ∙ fact-buffered id m (get c.rows id) (get c.buf id) s e)
  | inr other ↦ rw (get-set m.node_id id (buffered m (get c.buf m.node_id)) c.buf, other) refl
]

told-IsValid : (m : Told) (c : ColdStore) → IsValid c → IsValid (told m c)
told-IsValid m c v = record {
  one_each = Distinct-set m.node_id (buffered m (get c.buf m.node_id)) c.buf v.one_each;
  primary_key = v.primary_key;
}

-- one operation, seen at one node
apply-view :
    (o : Op) (c : ColdStore) (id : Bytes)
    → AreKeyed (o ∷ [])
    → IsValid c
    → (view (apply o c) id ≡ replay id (o ∷ []) (view c id)) × IsValid (apply o c)
unfolding apply replay
apply-view (tell now m) c id k v =
    let seen = view-told m c id k.0 k.1 in
    let valid = told-IsValid m c v in
    elim (Bool-cases (leb flush_entries (length (told m c).buf))) [
      | inl full ↦
          unfold buffer in
          rw full (view-flush now (told m c) id valid ∙ seen, flush-IsValid now (told m c) valid)
      | inr room ↦ unfold buffer in rw room (seen, valid)
    ]
apply-view (flush_now now) c id k v = (view-flush now c id v, flush-IsValid now c v)
apply-view (flush_if_due now) c id k v = view-maybe_flush now c id v

replay-cons :
    (id : Bytes) (o : Op) (os : List Op) (f : Option Fact)
    → replay id (o ∷ os) f ≡ replay id os (replay id (o ∷ []) f)
unfolding replay
replay-cons id (tell now m) os f = refl
replay-cons id (flush_now now) os f = refl
replay-cons id (flush_if_due now) os f = refl

AreKeyed-cons : (o : Op) (os : List Op) → AreKeyed (o ∷ os) → AreKeyed (o ∷ []) × AreKeyed os
AreKeyed-cons (tell now m) os k = ((k.0, k.1, tt), k.2)
AreKeyed-cons (flush_now now) os k = (tt, k)
AreKeyed-cons (flush_if_due now) os k = (tt, k)

view-run :
    (os : List Op) (c : ColdStore) (id : Bytes)
    → AreKeyed os
    → IsValid c
    → (view (run os c) id ≡ replay id os (view c id)) × IsValid (run os c)
unfolding run
view-run [] c id k v = (unfold replay in refl, v)
view-run (o ∷ os) c id k v =
    let (first, rest) = AreKeyed-cons o os k in
    let (seen, valid) = apply-view o c id first v in
    let (later, end) = view-run os (apply o c) id rest valid in
    (later ∙ ap (replay id os) seen ∙ sym (replay-cons id o os (view c id)), end)

view-lookup :
    (now : Micros) (c : ColdStore) (id : Bytes)
    → IsValid c
    → fact_of (lookup (flush now c).1 id) ≡ view c id
view-lookup now c id v = ap fact_of ((flush_lem now c v).3 id)

-- From a valid store, whatever is buffered and whenever it is flushed, if no key that is told is empty,
-- after a flush the store gives for each node what the announces told, replayed in order on what it would
-- have given after a flush before them, but for first_seen and the count of announces. The flush leaves
-- nothing in the buffer, and the store valid.
pub run_refines :
    (os : List Op) (before after : Micros) (c : ColdStore) (id : Bytes)
    → AreKeyed os
    → IsValid c
    → let c' = (flush after (run os c)).1 in
      (fact_of (lookup c' id) ≡ replay id os (fact_of (lookup (flush before c).1 id)))
      × (c'.buf ≡ [])
      × IsValid c'
run_refines os before after c id k v =
    let (seen, valid) = view-run os c id k v in
    let flushed_it = flush_lem after (run os c) valid in
    (
      view-lookup after (run os c) id valid
          ∙ seen
          ∙ ap (replay id os) (sym (view-lookup before c id v)),
      flushed_it.1,
      flushed_it.2,
    )
