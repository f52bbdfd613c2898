-- ===== src/Routes/Table.antt =====
-- `RouteTable`: what is learned from announces, settled, looked up and forgotten.
pub mod Hot
pub mod Learn
pub mod Hops
pub mod Guard
pub mod Committed
pub mod Settle
pub mod Lookup
pub mod Candidates
pub mod Listing
pub mod Warm
use wifipi.Prelude.Int.{ltb_ℤ, ℤ}
use wifipi.Prelude.Dict.{set, Dict, get, remove}
use wifipi.Bytes.{Bytes}
use wifipi.Prelude.Time.{seconds, Micros}
use wifipi.Struct.{Values}
use wifipi.Prelude.Result.{key_error, err, and_then, ok, Result}
use wifipi.Prelude.{
  not, ◌&&◌, length, nat_beq, ◌||◌, suc, ◌==◌, false, some, ltb, leb, none, true, if◌then◌else◌,
  Bool, ◌+◌, Option, List, ℕ, [], ◌∷◌, list_eq,
}
use wifipi.Routes.Entry.{
  stored_rssi, Route, settle_after, flood_guard, unknown_rssi, pack_entry, unpack_entry, route_fmt,
}
use wifipi.Routes.Cold
use wifipi.Routes.Cold.{ColdStore, Extras, no_extras}

-- a worse route that waits for a lower-hop copy of its flood: a value of `_pending`
pub record Candidate : Type 0 where
  pub commit_at : Micros
  pub next_hop : Bytes
  pub hops : ℕ
  pub rssi : ℤ

pub record Stats : Type 0 where
  pub hot_hits : ℕ
  pub cold_hits : ℕ
  pub misses : ℕ
  pub evictions : ℕ

pub record RouteTable : Type 0 where
  pub own_id : Option Bytes
  pub ttl : Micros
  pub max_hot : ℕ
  pub cold : Option ColdStore
  pub hot : Dict Bytes Bytes
  pub pending : Dict Bytes Candidate
  pub stats : Stats

unfoldable pub init : Option Bytes → Micros → Option ColdStore → ℕ → RouteTable
init own_id ttl cold max_hot = record {
  own_id = own_id;
  ttl = ttl;
  max_hot = max_hot;
  cold = cold;
  hot = [];
  pending = [];
  stats = record { hot_hits = 0; cold_hits = 0; misses = 0; evictions = 0 };
}

pub data Verdict : Type 0 where
  self new better refreshed settling kept : Verdict

-- The readings of `time.time` and `time.monotonic`.
pub record Clocks : Type 0 where
  pub wall : Micros
  pub mono : Micros

-- what an announce says of a route
pub record Heard : Type 0 where
  pub next_hop : Bytes
  pub hops : ℕ
  pub rssi : Option ℤ
  pub extras : Extras

-- the `while` loop of `_put_hot`, with its counter
unfoldable pub trim : ℕ → Dict Bytes Bytes → ℕ → Dict Bytes Bytes × ℕ
trim max_hot [] n = ([], n)
trim max_hot (x ∷ d) n =
    let rest = trim max_hot d (n + 1) in if ltb max_hot (suc (length d)) then rest else (x ∷ d, n)

-- `struct.error` leaves the table without the entry
unfoldable pub put_hot :
    Bytes → Bytes → ℕ → Option ℤ → Micros → RouteTable → Result (Unit {0}) × RouteTable
put_hot id next_hop hops rssi last_seen t =
    let popped = remove id t.hot in
    elim (pack_entry next_hop hops rssi last_seen) [
      | err e ↦ (err e, record t { hot = popped })
      | ok v ↦
          let (hot, n) = trim t.max_hot (set id v popped) t.stats.evictions in
          (ok tt, record t { hot = hot; stats = record t.stats { evictions = n } })
    ]

-- `if self.cold: self.cold.buffer(...)`
unfoldable pub buffer_cold :
    Clocks → Bytes → Bytes → ℕ → Option ℤ → Extras → RouteTable → RouteTable
buffer_cold now id next_hop hops rssi extras t = record t {
  cold = elim t.cold [
    | none ↦ none
    | some c ↦ some (Cold.buffer now.mono id next_hop hops rssi now.wall extras c)
  ];
}

unfoldable pub commit : Clocks → Bytes → Heard → RouteTable → Result (Unit {0}) × RouteTable
commit now id h t =
    and_then (put_hot id h.next_hop h.hops h.rssi now.wall t)
      (λ _ t'. (ok tt, buffer_cold now id h.next_hop h.hops h.rssi h.extras t'))

abbrev answer : Verdict → Result (Unit {0}) × RouteTable → Result Verdict × RouteTable
answer v r = and_then r (λ _ t. (ok v, t))

-- `rssi is not None and rssi > held`
abbrev pub stronger : Option ℤ → ℤ → Bool
stronger none held = false
stronger (some r) held = ltb_ℤ held r

-- within `FLOOD_GUARD` of the second in which the held route was written
abbrev pub guarded : Micros → ℕ → Bool
guarded now old_seen = leb now (seconds old_seen + flood_guard)

-- a copy at or below the held hop count
unfoldable pub learn_close :
    Clocks → Bytes → Heard → Values route_fmt → RouteTable → Result Verdict × RouteTable
learn_close now id h (old_hop, (old_hops, (old_rssi, (old_seen, end)))) t0 =
    let t = record t0 { pending = remove id t0.pending } in
    if ltb h.hops old_hops
    then answer better (commit now id h t)
    else if h.next_hop == old_hop
    then answer refreshed (commit now id h t)
    else if guarded now.wall old_seen && not (stronger h.rssi old_rssi)
    then (ok kept, buffer_cold now id old_hop old_hops (some old_rssi) h.extras t)
    else answer better (commit now id h t)

-- whether a copy starts or sharpens a settle
abbrev pub sharpens : Heard → Option Candidate → Bool
sharpens h none = true
sharpens h (some c) = ltb h.hops c.hops || (nat_beq h.hops c.hops && stronger h.rssi c.rssi)

abbrev pub deadline : Micros → Option Candidate → Micros
deadline now none = now + settle_after
deadline now (some c) = c.commit_at

unfoldable pub settle_later : Clocks → Bytes → Heard → RouteTable → RouteTable
settle_later now id h t =
    let held = get t.pending id in
    if sharpens h held
    then record t {
      pending =
          set id
            (record {
              commit_at = deadline now.wall held;
              next_hop = h.next_hop;
              hops = h.hops;
              rssi = stored_rssi h.rssi;
            })
            t.pending;
    }
    else t

-- a copy above the held hop count
unfoldable pub learn_worse :
    Clocks → Bytes → Heard → Values route_fmt → RouteTable → Result Verdict × RouteTable
learn_worse now id h (old_hop, (old_hops, (old_rssi, (old_seen, end)))) t =
    if guarded now.wall old_seen
    then (ok kept, buffer_cold now id old_hop old_hops (some old_rssi) h.extras t)
    else (
      ok settling,
      buffer_cold now id old_hop old_hops (some old_rssi) h.extras (settle_later now id h t),
    )

unfoldable pub is_self : RouteTable → Bytes → Bool
is_self t id = elim t.own_id [ none ↦ false | some own ↦ id == own ]

abbrev pub held_hops : Values route_fmt → ℕ
held_hops held = held.1.0

unfoldable pub learn : Clocks → Bytes → Heard → RouteTable → Result Verdict × RouteTable
learn now id h t = if is_self t id then (ok self, t) else elim (get t.hot id) [
  | none ↦ answer new (commit now id h (record t { pending = remove id t.pending }))
  | some existing ↦
      let held = unpack_entry existing in
      if leb h.hops (held_hops held)
      then learn_close now id h held t
      else learn_worse now id h held t
]

-- the candidates whose wait is over
unfoldable pub settled : Micros → Dict Bytes Candidate → List Bytes
settled now [] = []
settled now ((id, c) ∷ d) =
    let rest = settled now d in if leb c.commit_at now then id ∷ rest else rest

-- the loop of `_settle`: pop, commit
unfoldable pub commit_all : Clocks → List Bytes → RouteTable → Result (Unit {0}) × RouteTable
commit_all now [] t = (ok tt, t)
commit_all now (id ∷ ids) t = elim (get t.pending id) [
  | none ↦ (err key_error, t)
  | some c ↦
      and_then
        (commit now id
          (record { next_hop = c.next_hop; hops = c.hops; rssi = some c.rssi; extras = no_extras })
          (record t { pending = remove id t.pending }))
        (λ _ t'. commit_all now ids t')
]

unfoldable pub settle : Clocks → RouteTable → Result (Unit {0}) × RouteTable
settle now t = commit_all now (settled now.wall t.pending) t

-- `_settle`, then the flush of the cold store when it is due
unfoldable pub tick : Clocks → RouteTable → Result ℕ × RouteTable
tick now t = and_then (settle now t) (λ _ t'. elim t'.cold [
  | none ↦ (ok 0, t')
  | some c ↦ let (n, c') = Cold.maybe_flush now.mono c in (ok n, record t' { cold = some c' })
])
