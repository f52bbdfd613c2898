-- ===== src/Node/Loop/Sends.antt =====
-- What a turn of the loop sends, and that it leaves nothing overdue.
use wifipi.Prelude.{
  ℕ, ◌+◌, ◌<◌, ◌≤◌, ◌≡◌, refl, ap, sym, ◌∙◌, Option, none, some, false, list_eq, pair_eq, List, [],
  ◌∷◌, ◌++◌, map, inl, inr, arith, length, leb, All, Bool-cases, leb→gt, if◌then◌else◌,
}
use mathlib.Core.List.{append_assoc, append-nil}
use wifipi.Prelude.Result.{Result, ok, and_then}
use wifipi.Prelude.Time.{Micros}
use wifipi.Bytes.{Bytes}
use wifipi.Frame.{Packet}
use wifipi.Frame.Wire
use wifipi.Frame.Wire.{wire_bytes}
use wifipi.Identity.{Crypto}
use wifipi.Flood.{next_deadline, earliest}
use wifipi.Flood.Due.{expired, after_due, due-after_due, reached, waiting-reached}
use wifipi.Flood.Relays.{expired-All}
use wifipi.Routes.Entry.{Name}
use wifipi.Routes.Table.{Clocks}
use wifipi.Link.{Meta, recv}
use wifipi.Link.Received.{AreReceived, recv-IsDelivered}
use wifipi.Node.{Node, learn_from, handle_announce, classify, handle}
use wifipi.Node.Robust.{IsValid}
use wifipi.Node.Loop.{
  Turn, send_relays, relay_due, announce_due, tick_routes, expire_due, handle_got, poll,
}
use wifipi.Node.Loop.Invariant.{IsTurn, relay_due-IsSafe, handle_got-IsSafe, tick_routes-IsSafe}
use wifipi.Node.Loop.Announce.{
  announce_packet, transmit_lem, send_announce_lem, announce_due-IsSafe,
}

-- A node that has sent these packets as relays.
abbrev pub relayed_all : List Packet → Node → Node
relayed_all ps n = record n {
  on_air = n.on_air ++ map wire_bytes ps;
  stats = record n.stats { relayed = n.stats.relayed + length ps; sent = n.stats.sent + length ps };
}

pub node_of_parts :
    (n : Node) (xs ys : List Bytes) (a b c d : ℕ)
    → xs ≡ ys
    → a ≡ b
    → c ≡ d
    → record n { on_air = xs; stats = record n.stats { relayed = a; sent = c } }
      ≡ record n { on_air = ys; stats = record n.stats { relayed = b; sent = d } }
node_of_parts n xs ys a b c d p q r =
    λ i. record n { on_air = p i; stats = record n.stats { relayed = q i; sent = r i } }

send_relays_lem :
    (ps : List Packet) (n : Node)
    → All Wire.IsValid ps
    → send_relays ps n ≡ (ok tt, relayed_all ps n)
unfolding send_relays
send_relays_lem [] n a =
    ap (λ m. (ok tt, m))
      (node_of_parts n n.on_air (n.on_air ++ []) n.stats.relayed (n.stats.relayed + 0) n.stats.sent
        (n.stats.sent + 0) (sym (append-nil n.on_air)) (omega arith) (omega arith))
send_relays_lem (p ∷ ps) n a =
    let n1 = record n {
      on_air = n.on_air ++ wire_bytes p ∷ [];
      stats = record n.stats { relayed = n.stats.relayed + 1; sent = n.stats.sent + 1 };
    } in
    rw (send_relays, transmit_lem p n a.0, and_then, send_relays_lem ps n1 a.1)
      (ap (λ m. (ok tt, m))
        (node_of_parts n ((n.on_air ++ wire_bytes p ∷ []) ++ map wire_bytes ps)
          (n.on_air ++ map wire_bytes (p ∷ ps)) (n.stats.relayed + 1 + length ps)
          (n.stats.relayed + length (p ∷ ps)) (n.stats.sent + 1 + length ps)
          (n.stats.sent + length (p ∷ ps))
          (append_assoc n.on_air (wire_bytes p ∷ []) (map wire_bytes ps)) (omega arith)
          (omega arith)))

pub relay_due_lem :
    (now : Micros) (n : Node)
    → IsValid n
    → relay_due now n ≡ (
      ok tt,
      relayed_all (expired now n.flooder.pending) (record n { flooder = after_due now n.flooder }),
    )
unfolding relay_due
relay_due_lem now n v =
    rw (relay_due, due-after_due now n.flooder v.flooder.distinct, and_then)
      (send_relays_lem (expired now n.flooder.pending)
        (record n { flooder = after_due now n.flooder })
        (expired-All now n.flooder.pending v.relays))

-- What a step of the turn leaves as it was.
pub record Keeps (n n' : Node) : Type 0 where
  pub on_air : n'.on_air ≡ n.on_air
  pub pending : n'.flooder.pending ≡ n.flooder.pending
  pub next_announce : n'.next_announce ≡ n.next_announce

pub tick_routes-Keeps : (now : Clocks) (n : Node) → Keeps n (tick_routes now n).1
unfolding tick_routes
tick_routes-Keeps now n = ground arith

pub expire_due-Keeps : (turn : Turn) (n : Node) → Keeps n (expire_due turn n).1
unfolding expire_due
expire_due-Keeps turn n = ground arith

-- the announce that a turn sends, if it is time
abbrev pub announce_bytes : Crypto → Turn → Node → List Bytes
announce_bytes crypto turn n =
    if leb n.next_announce turn.now
    then wire_bytes (announce_packet crypto turn.announce n) ∷ []
    else []

-- What `announce_due` does to a node.
record Announces (crypto : Crypto) (turn : Turn) (n n' : Node) : Type 0 where
  air : n'.on_air ≡ n.on_air ++ announce_bytes crypto turn n
  pending : n'.flooder.pending ≡ n.flooder.pending
  not_due : turn.now < n'.next_announce

announce_due-Announces :
    (crypto : Crypto) (turn : Turn) (n : Node)
    → IsValid n
    → IsTurn turn
    → turn.now ≤ turn.announce.sent_at
    → 0 < n.announce_interval
    → Announces crypto turn n (announce_due crypto turn n).1
unfolding announce_due
announce_due-Announces crypto turn n v t later spaced =
    elim (Bool-cases (leb n.next_announce turn.now)) [
      | inl ready ↦
          rw (announce_due, ready, send_announce_lem crypto turn.announce n v t.draw, and_then)
            (record { air = rw ready refl; pending = refl; not_due = omega (arith, later, spaced) })
      | inr early ↦
          rw (announce_due, early)
            (record {
              air = rw early (sym (append-nil n.on_air));
              pending = refl;
              not_due = leb→gt n.next_announce turn.now early;
            })
    ]

module _ (crypto : Crypto) (decode : Bytes → Name) (uniform : Micros → Micros → Micros)
    (turn : Turn) where
  pub handle_got_air :
      (got : Option (Bytes × Meta)) (n : Node)
      → ((handle_got crypto decode uniform turn got n).1.on_air ≡ n.on_air)
        × ((handle_got crypto decode uniform turn got n).1.next_announce ≡ n.next_announce)
        × ((handle_got crypto decode uniform turn got n).1.announce_interval ≡ n.announce_interval)
  unfolding handle_got handle classify handle_announce learn_from
  handle_got_air none n = (refl, refl, refl)
  handle_got_air (some (frame, meta)) n = ground arith

  -- One turn on a valid node sends, in this order, every relay whose time has come, those included that the frame just
  -- received left pending, and the announce if it is time. After it no relay is overdue and the next
  -- announce is ahead, if the interval is positive and the clock does not run backwards.
  pub poll_sends :
      (buf : Option Bytes) (n : Node)
      → AreReceived buf
      → IsTurn turn
      → IsValid n
      → turn.now ≤ turn.announce.sent_at
      → 0 < n.announce_interval
      → (got : Option (Bytes × Meta)) × (recv buf ≡ ok got)
        × (let n1 = (handle_got crypto decode uniform turn got n).1 in
            let n' = (poll crypto decode uniform turn buf n).1 in
            (n'.on_air
              ≡ n.on_air
                ++ (map wire_bytes (expired turn.due_at n1.flooder.pending)
                    ++ announce_bytes crypto turn n1))
            × (reached turn.due_at (next_deadline n'.flooder) ≡ false)
            × (turn.now < n'.next_announce))
  unfolding poll next_deadline after_due
  poll_sends buf n a t v later spaced =
      let (got, received, delivered) = recv-IsDelivered buf a in
      let n1 = (handle_got crypto decode uniform turn got n).1 in
      let (u1, fine1, v1) = handle_got-IsSafe crypto decode uniform turn t got n delivered v in
      let (u2, fine2, v2) = relay_due-IsSafe turn.due_at n1 v1 in
      let n2 = (relay_due turn.due_at n1).1 in
      let same2 = ap (λ (r : Result (Unit {0}) × Node). r.1) (relay_due_lem turn.due_at n1 v1) in
      let (u3, fine3, v3) = announce_due-IsSafe crypto turn n2 v2 t.draw in
      let n3 = (announce_due crypto turn n2).1 in
      let (u4, fine4, v4) = tick_routes-IsSafe turn.tick_at n3 v3 t.tick_fits in
      let n4 = (tick_routes turn.tick_at n3).1 in
      let k4 = tick_routes-Keeps turn.tick_at n3 in
      let k5 = expire_due-Keeps turn n4 in
      let (air1, next1, every1) = handle_got_air got n in
      let interval : n2.announce_interval ≡ n.announce_interval =
        ap (λ (m : Node). m.announce_interval) same2 ∙ every1 in
      let announces = announce_due-Announces crypto turn n2 v2 t later (rw interval spaced) in
      (
        got,
        received,
        rw (poll, received, and_then, fine1, fine2, fine3, fine4)
            (
              k5.on_air
                  ∙ k4.on_air
                  ∙ announces.air
                  ∙ ap (λ (m : Node). m.on_air ++ announce_bytes crypto turn m) same2
                  ∙ append_assoc n1.on_air (map wire_bytes (expired turn.due_at n1.flooder.pending))
                      (announce_bytes crypto turn n1)
                  ∙ ap
                      (λ air.
                        air
                        ++ (map wire_bytes (expired turn.due_at n1.flooder.pending)
                            ++ announce_bytes crypto turn n1))
                      air1,
              ap (λ d. reached turn.due_at (earliest d))
                    (k5.pending
                      ∙ k4.pending
                      ∙ announces.pending
                      ∙ ap (λ (m : Node). m.flooder.pending) same2)
                  ∙ waiting-reached turn.due_at n1.flooder.pending,
              rw (k5.next_announce, k4.next_announce) announces.not_due,
            ),
      )
