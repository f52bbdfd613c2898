-- ===== src/Routes/Cold/Laws.antt =====
-- What the cold store gives back, through its buffer and the upserts.
use wifipi.Prelude.Dict.{get-set, Distinct-set, set, Distinct, Dict, get}
use wifipi.Bytes.{Bytes}
use wifipi.Prelude.Time.{Micros}
use wifipi.Prelude.{
  ap, sym, ◌∙◌, inr, inl, Bool-cases, eq_iff, true, arith, length, ◌≡◌, nat_beq, ◌+◌, Option, [],
  ◌∷◌, list_eq, refl, none, some,
}
use wifipi.Routes.Entry.{Route}
use wifipi.Routes.Cold.{
  ColdStore, Row, Buffered, or_name, coalesce, upsert, upsert_all, flush, route_of_buffered,
  route_of_row, lookup,
}

-- No node is buffered twice, and the rows are keyed by `node_id`.
pub record IsValid (c : ColdStore) : Type 0 where
  pub one_each : Distinct c.buf
  pub primary_key : Distinct c.rows

abbrev pub upserted : Option Row → Option Buffered → Option Row
upserted row none = row
upserted row (some b) = some (upsert row b)

pub get-upsert_all :
    (id : Bytes) (buf : Dict Bytes Buffered) (rows : Dict Bytes Row)
    → Distinct buf
    → get (upsert_all buf rows) id ≡ upserted (get rows id) (get buf id)
unfolding upsert_all get
get-upsert_all id [] rows u = refl
get-upsert_all id ((i, b) ∷ buf) rows u = ground (
  arith,
  eq_iff i id,
  get-upsert_all id buf (set i (upsert (get rows i) b) rows) u.1,
  get-set i id (upsert (get rows i) b) rows,
)

Distinct-upsert_all :
    (buf : Dict Bytes Buffered) (rows : Dict Bytes Row)
    → Distinct rows
    → Distinct (upsert_all buf rows)
unfolding upsert_all
Distinct-upsert_all [] rows u = u
Distinct-upsert_all ((i, b) ∷ buf) rows u =
    Distinct-upsert_all buf (set i (upsert (get rows i) b) rows)
      (Distinct-set i (upsert (get rows i) b) rows u)

-- What a flush makes of the record of a node: the route and the time of the buffer; the keys and the
-- name of the buffer where it has them, else those of the row; the row's first hearing, and one
-- announce more.
abbrev pub flushed : Bytes → Option Row → Option Buffered → Option Route
flushed id none none = none
flushed id (some row) none = some (route_of_row id row)
flushed id none (some b) = some (route_of_buffered id b)
flushed id (some row) (some b) = some (record {
  node_id = id;
  next_hop = b.next_hop;
  hops = b.hops;
  rssi = b.rssi;
  last_seen = b.last_seen;
  first_seen = row.first_seen;
  announces = row.announces + 1;
  sign_pub = coalesce b.extras.sign_pub row.sign_pub;
  encrypt_pub = coalesce b.extras.encrypt_pub row.encrypt_pub;
  name = or_name b.extras.name row.name;
})

length_zero : (buf : Dict Bytes Buffered) → nat_beq (length buf) 0 ≡ true → buf ≡ []
length_zero [] h = refl
length_zero (x ∷ buf) h = absurd (ground arith)

pub flush-eq :
    (now : Micros) (c : ColdStore)
    → flush now c
      ≡ (length c.buf, record { rows = upsert_all c.buf c.rows; buf = []; last_flush = now })
unfolding flush upsert_all
flush-eq now c = elim (Bool-cases (nat_beq (length c.buf) 0)) [
  | inl empty ↦
      let nothing = length_zero c.buf empty in
      let n : 0 ≡ length c.buf = sym (ap length nothing) in
      let rows : c.rows ≡ upsert_all c.buf c.rows = sym (ap (λ b. upsert_all b c.rows) nothing) in
      rw empty (λ i. (n i, record { rows = rows i; buf = nothing i; last_flush = now }))
  | inr pending ↦ rw pending refl
]

route_of : Bytes → Option Row → Option Route
route_of id none = none
route_of id (some row) = some (route_of_row id row)

route_of-upserted :
    (id : Bytes) (row : Option Row) (b : Option Buffered)
    → route_of id (upserted row b) ≡ flushed id row b
unfolding route_of
route_of-upserted id none none = refl
route_of-upserted id none (some b) = refl
route_of-upserted id (some row) none = refl
route_of-upserted id (some row) (some b) = refl

lookup_unbuffered :
    (c : ColdStore) (id : Bytes) → get c.buf id ≡ none → lookup c id ≡ route_of id (get c.rows id)
unfolding lookup route_of
lookup_unbuffered c id h = ground (arith, h)

-- A flush of a valid store reports how many nodes it wrote and empties the buffer, and for every
-- node the store then gives the buffered record merged into the row, or the row alone where nothing
-- was buffered.
pub flush_lem :
    (now : Micros) (c : ColdStore)
    → IsValid c
    → ((flush now c).0 ≡ length c.buf)
      × ((flush now c).1.buf ≡ [])
      × IsValid (flush now c).1
      × ((id : Bytes) → lookup (flush now c).1 id ≡ flushed id (get c.rows id) (get c.buf id))
flush_lem now c v =
    let c' : ColdStore = record { rows = upsert_all c.buf c.rows; buf = []; last_flush = now } in
    rw (flush-eq now c) (
      refl,
      refl,
      record { one_each = tt; primary_key = Distinct-upsert_all c.buf c.rows v.primary_key },
      λ id.
          lookup_unbuffered c' id (unfold get in refl)
          ∙ ap (route_of id) (get-upsert_all id c.buf c.rows v.one_each)
          ∙ route_of-upserted id (get c.rows id) (get c.buf id),
    )
