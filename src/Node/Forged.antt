-- ===== src/Node/Forged.antt =====
-- Which announces reach the route table: those that verify, and every copy behind the first.
use wifipi.Prelude.{◌+◌, ◌<◌, ◌≡◌, refl, none, some, true, false, nat_beq, list_eq, pair_eq, arith}
use wifipi.Prelude.Result.{Error, Result, ok, err, and_then}
use wifipi.Prelude.Dict.{get}
use wifipi.Prelude.Time.{Micros}
use wifipi.Bytes.{Bytes}
use wifipi.Frame.{Packet, from_bytes, type_announce}
use wifipi.Frame.Wire
use wifipi.Identity.{Crypto, Announce, parse_announce}
use wifipi.Identity.Announces.{IsSigned, parse_announce-ok_iff}
use wifipi.Flood.{Readings, Verdict, duplicate, scheduled, on_receive}
use wifipi.Flood.Delay.{IsUniform}
use wifipi.Flood.Schedule.{repeated_duplicate}
use wifipi.Routes.Entry.{Name}
use wifipi.Routes.Cold.{no_extras}
use wifipi.Routes.Table.{Clocks, learn, is_self}
use wifipi.Routes.Table.Hot
use wifipi.Routes.Table.Learn.{HeardInRange, Installed}
use wifipi.Routes.Table.Hops.{learn_new}
use wifipi.Link.{Meta}
use wifipi.Node.{Node, heard_from, is_first_time, learn_from, handle_announce, classify, handle}

-- No announce that the payload could be is signed for the address.
abbrev pub IsForged : Crypto → Packet → Type 0
IsForged crypto p = (a : Announce) → ¬ IsSigned crypto p.src p.payload a

parse-forged :
    (crypto : Crypto) (p : Packet)
    → IsForged crypto p
    → (e : Error) × (parse_announce crypto p.src p.payload ≡ err e)
parse-forged crypto p forged = go (parse_announce crypto p.src p.payload) refl
  where
    go :
        (r : Result Announce)
        → parse_announce crypto p.src p.payload ≡ r
        → (e : Error) × (parse_announce crypto p.src p.payload ≡ err e)
    go (err e) h = (e, h)
    go (ok a) h = absurd (forged a ((parse_announce-ok_iff crypto p.src p.payload a).0 h))

module _ (crypto : Crypto) (decode : Bytes → Name) (uniform : Micros → Micros → Micros)
    (at : Readings) (now : Clocks) (frame : Bytes) (meta : Meta) (n : Node) (p : Packet)
    (read : from_bytes frame ≡ ok p) (announce : p.type ≡ type_announce) where
  -- A forged announce that the flooder takes for a first copy, scheduled or without hops, teaches
  -- nothing: the route table stays as it is, and the announce is counted as received and rejected.
  -- The flooder has taken it in before the check.
  pub forged_first :
      (verdict : Verdict)
      → (on_receive uniform at p meta.radio.rssi n.flooder).0 ≡ ok verdict
      → is_first_time verdict ≡ true
      → IsForged crypto p
      → handle crypto decode uniform at now frame meta n ≡ (
        ok (some p),
        record n {
          flooder = (on_receive uniform at p meta.radio.rssi n.flooder).1;
          stats = record n.stats {
            received = n.stats.received + 1;
            rejected = n.stats.rejected + 1;
          };
        },
      )
  unfolding handle classify handle_announce
  forged_first verdict answer first forged =
      let (e, refused) = parse-forged crypto p forged in
      let kind : nat_beq p.type type_announce ≡ true = ground arith in
      rw (read, handle, answer, and_then, kind, first, refused) refl

  -- A duplicate of an announce is learned without a look at its signature, and without keys.
  duplicate_learned :
      (on_receive uniform at p meta.radio.rssi n.flooder).0 ≡ ok duplicate
      → (handle crypto decode uniform at now frame meta n).1.routes
        ≡ (learn now p.src (heard_from n p meta no_extras) n.routes).1
  unfolding handle classify handle_announce learn_from
  duplicate_learned answer =
      let kind : nat_beq p.type type_announce ≡ true = ground arith in
      rw (read, handle, answer, and_then, kind) (ground arith)

-- A valid packet with a forged announce of a node not held, sent twice to a node with a valid table
-- with room and a threshold above 1, is learned once it was scheduled, if what is heard is in range
-- and the draws lie between their arguments: its first copy is rejected and changes no route,
-- but it has been queued for relay by then, so that its second copy, a duplicate, is learned without
-- a check and installs a route to the address through its sender.
pub forged_twice :
    (crypto : Crypto) (decode : Bytes → Name) (uniform : Micros → Micros → Micros)
    (at again : Readings) (now later : Clocks) (frame : Bytes) (meta : Meta) (n : Node) (p : Packet)
    → from_bytes frame ≡ ok p
    → p.type ≡ type_announce
    → Wire.IsValid p
    → IsForged crypto p
    → IsUniform uniform
    → 1 < n.flooder.threshold
    → (on_receive uniform at p meta.radio.rssi n.flooder).0 ≡ ok scheduled
    → Hot.IsValid n.routes
    → 0 < n.routes.max_hot
    → is_self n.routes p.src ≡ false
    → get n.routes.hot p.src ≡ none
    → HeardInRange later (heard_from n p meta no_extras)
    → let n1 = (handle crypto decode uniform at now frame meta n).1 in
      let n2 = (handle crypto decode uniform again later frame meta n1).1 in
      (n1.routes ≡ n.routes)
      × (n1.stats.rejected ≡ n.stats.rejected + 1)
      × Installed later p.src (heard_from n p meta no_extras) n2.routes
forged_twice crypto decode uniform at again now later frame meta n p read announce v forged u many
      queued valid room other absent r =
    let first =
      forged_first crypto decode uniform at now frame meta n p read announce scheduled queued refl
        forged in
    let n1 : Node = record n {
      flooder = (on_receive uniform at p meta.radio.rssi n.flooder).1;
      stats = record n.stats { received = n.stats.received + 1; rejected = n.stats.rejected + 1 };
    } in
    let answer =
      repeated_duplicate uniform at p meta.radio.rssi n.flooder again meta.radio.rssi v u many
        queued in
    rw first (
      refl,
      refl,
      rw (duplicate_learned crypto decode uniform again later frame meta n1 p read announce answer)
          (learn_new later p.src (heard_from n p meta no_extras) n.routes r valid room other
            absent),
    )
