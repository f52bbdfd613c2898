-- ===== src/Flood.antt =====
-- beachedmesh/flood.py: which packets are relayed, when, and which are dropped.
pub mod Delay
pub mod Seen
pub mod Due
pub mod Verdicts
pub mod Run
pub mod Once
pub mod Balance
pub mod Cancel
pub mod Schedule
pub mod Relays
mod Tests
use Prim.Native.Nat.{min}
use wifipi.Flood.Delay.{relay_delay}
use wifipi.Bytes.{Bytes}
use wifipi.Prelude.Int.{ℤ}
use wifipi.Prelude.Dict.{get, set, remove, Dict}
use wifipi.Prelude.Time.{Micros}
use wifipi.Prelude.{
  list_eq, pair_eq, [], ◌∷◌, length, ◌==◌, false, nat_beq, ◌+◌, leb, some, none, Bool,
  if◌then◌else◌, Option, List, ℕ,
}
use wifipi.Frame.{relayed, key, Key, Packet}
use wifipi.Prelude.Result.{◌>>=◌, key_error, ok, err, Result}
use wifipi.Flood.Seen
use wifipi.Flood.Seen.{SeenCache}

-- how many other relays must be heard before our own is dropped
abbrev pub relay_threshold : ℕ
relay_threshold = 3

-- A relay that waits for its time; `heard` counts the other relays of the packet.
pub record Pending : Type 0 where
  pub packet : Packet
  pub send_at : Micros
  pub heard : ℕ

pub record Stats : Type 0 where
  pub relayed : ℕ
  pub cancelled : ℕ
  pub duplicates : ℕ
  pub expired_hops : ℕ

pub record Flooder : Type 0 where
  pub own_id : Option Bytes
  pub threshold : ℕ
  pub seen : SeenCache Key
  pub pending : Dict Key Pending
  pub stats : Stats

-- `seen or SeenCache()`: a cache is false if it is `None` or, since it has a `__len__`, empty
unfoldable pub given_or_new : Option (SeenCache Key) → SeenCache Key
given_or_new none = Seen.empty
given_or_new (some c) = if nat_beq (length c.entries) 0 then Seen.empty else c

unfoldable pub init : Option Bytes → ℕ → Option (SeenCache Key) → Flooder
unfolding given_or_new
init own_id threshold seen = record {
  own_id = own_id;
  threshold = threshold;
  seen = given_or_new seen;
  pending = [];
  stats = record { relayed = 0; cancelled = 0; duplicates = 0; expired_hops = 0 };
}

pub data Verdict : Type 0 where
  own duplicate cancelled scheduled no_hops : Verdict

-- The readings of `time.monotonic` in one call of `on_receive`: in `seen`, in `add`, and for the
-- time of the relay.
pub record Readings : Type 0 where
  pub seen_at : Micros
  pub added_at : Micros
  pub scheduled_at : Micros

unfoldable pub is_own : Flooder → Packet → Bool
is_own f p = elim f.own_id [ none ↦ false | some id ↦ p.src == id ]

-- a copy of a packet whose relay is pending: another node did the job
unfoldable pub on_pending : Packet → Pending → Flooder → Result Verdict × Flooder
on_pending p q f =
    if leb f.threshold (q.heard + 1)
    then (
      ok cancelled,
      record f {
        pending = remove (key p) f.pending;
        stats = record f.stats { cancelled = f.stats.cancelled + 1 };
      },
    )
    else (
      ok duplicate,
      record f { pending = set (key p) (record q { heard = q.heard + 1 }) f.pending },
    )

-- what `on_receive` does with `pkt.relayed()`
unfoldable pub schedule :
    Result (Option Packet) → Packet → Micros → Flooder → Result Verdict × Flooder
schedule (err e) p send_at f = (err e, f)
schedule (ok none) p send_at f =
    (ok no_hops, record f { stats = record f.stats { expired_hops = f.stats.expired_hops + 1 } })
schedule (ok (some q)) p send_at f = (
  ok scheduled,
  record f {
    pending = set (key p) (record { packet = q; send_at = send_at; heard = 0 }) f.pending;
  },
)

-- a packet that is neither ours nor pending
unfoldable pub on_other :
    (Micros → Micros → Micros) → Readings → Packet → Option ℤ → Flooder → Result Verdict × Flooder
on_other uniform r p rssi f =
    let (hit, cache) = Seen.seen r.seen_at (key p) f.seen in
    if hit
    then (
      ok duplicate,
      record f { seen = cache; stats = record f.stats { duplicates = f.stats.duplicates + 1 } },
    )
    else schedule (relayed p) p (r.scheduled_at + relay_delay uniform rssi)
        (record f { seen = Seen.add r.added_at (key p) cache })

unfoldable pub on_receive :
    (Micros → Micros → Micros) → Readings → Packet → Option ℤ → Flooder → Result Verdict × Flooder
on_receive uniform r p rssi f =
    if is_own f p
    then (ok own, record f { pending = remove (key p) f.pending })
    else elim (get f.pending (key p)) [
      | some q ↦ on_pending p q f
      | none ↦ on_other uniform r p rssi f
    ]

-- the keys of the relays whose time has come
unfoldable pub ready : Micros → Dict Key Pending → List Key
ready now [] = []
ready now ((k, q) ∷ d) = let rest = ready now d in if leb q.send_at now then k ∷ rest else rest

-- `out.append(self.pending.pop(k).packet)` for every ready key
unfoldable pub pop_all : List Key → Flooder → Result (List Packet) × Flooder
pop_all [] f = (ok [], f)
pop_all (k ∷ ks) f = elim (get f.pending k) [
  | none ↦ (err key_error, f)
  | some q ↦
      let (out, f') = pop_all ks (record f {
        pending = remove k f.pending;
        stats = record f.stats { relayed = f.stats.relayed + 1 };
      }) in
      (out >>= (λ rest. ok (q.packet ∷ rest)), f')
]

unfoldable pub due : Micros → Flooder → Result (List Packet) × Flooder
due now f = pop_all (ready now f.pending) f

-- `min(p.send_at for p in self.pending.values())`
unfoldable pub earliest : Dict Key Pending → Option Micros
earliest [] = none
earliest ((k, q) ∷ d) = elim (earliest d) [
  | none ↦ some q.send_at
  | some t ↦ some (min q.send_at t)
]

unfoldable pub next_deadline : Flooder → Option Micros
unfolding earliest
next_deadline f = earliest f.pending
