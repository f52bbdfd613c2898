-- ===== src/Node/Outage/Sends.antt =====
-- What a turn sends on a radio that takes some packets before it goes away.
use wifipi.Prelude.{
  ℕ, zero, suc, ◌+◌, ◌-◌, ◌<◌, ◌≤◌, ◌≡◌, refl, ap, ap₂, sym, ◌∙◌, Option, true, false, list_eq,
  pair_eq, List, [], subst, length-append, ◌∷◌, ◌++◌, map, take, inl, inr, arith, length, leb, All,
  Bool-cases, leb→gt, leb→le, gt→leb, le→leb, if◌then◌else◌,
}
use mathlib.Core.List.{append_assoc, append-nil}
use wifipi.Prelude.Result.{Result, ok, err, os_error, and_then}
use wifipi.Prelude.Time.{Micros}
use wifipi.Bytes.{Bytes}
use wifipi.Frame.{Packet}
use wifipi.Frame.Wire
use wifipi.Frame.Wire.{wire_bytes}
use wifipi.Node.{Node}
use wifipi.Identity.{Crypto}
use wifipi.Routes.Entry.{Name}
use wifipi.Link.{Meta, recv}
use wifipi.Link.Received.{AreReceived, recv-IsDelivered}
use wifipi.Node.Outage.Agrees.{poll_until-poll}
use wifipi.Frame.{key}
use wifipi.Flood.Seen
use wifipi.Flood.Due.{expired, after_due, due-after_due}
use wifipi.Flood.Relays.{expired-All}
use wifipi.Node.Robust.{IsValid}
use wifipi.Node.Loop.{Turn, tick_routes, expire_due, handle_got, poll}
use wifipi.Node.Loop.Invariant.{IsTurn, tick_routes-IsSafe, expire_due-IsSafe, handle_got-IsSafe}
use wifipi.Node.Loop.Announce.{
  transmit_lem, announce_packet, announce_packet-IsValid, made, send_announce_lem,
}
use wifipi.Node.Loop.Sends.{
  relayed_all, node_of_parts, announce_bytes, tick_routes-Keeps, expire_due-Keeps, handle_got_air,
}
use wifipi.Node.Outage.{
  send_relays_until, send_announce_until, relay_due_until, announce_due_until, heard, poll_until,
}
use wifipi.Node.Outage.Survives.{refused_lem, announce_due_until-Survives, relay_due_until-Survives}

take-nil : {A : Type 0} (k : ℕ) → take {A = A} k [] ≡ []
take-nil zero = refl
take-nil (suc k) = refl

take-append_short : (k : ℕ) (xs ys : List Bytes) → k ≤ length xs → take k (xs ++ ys) ≡ take k xs
take-append_short zero xs ys h = refl
take-append_short (suc k) [] ys h = absurd (omega arith)
take-append_short (suc k) (x ∷ xs) ys h = ap (◌∷◌ x) (take-append_short k xs ys (omega (arith, h)))

take-append_long :
    (k : ℕ) (xs ys : List Bytes) → length xs ≤ k → take k (xs ++ ys) ≡ xs ++ take (k - length xs) ys
take-append_long k [] ys h = ap (λ m. take m ys) (omega arith)
take-append_long zero (x ∷ xs) ys h = absurd (omega arith)
take-append_long (suc k) (x ∷ xs) ys h =
    ap (◌∷◌ x)
      (take-append_long k xs ys (omega (arith, h)) ∙ ap (λ m. xs ++ take m ys) (omega arith))

length-wire_bytes : (ps : List Packet) → length (map wire_bytes ps) ≡ length ps
length-wire_bytes [] = refl
length-wire_bytes (p ∷ ps) = ap suc (length-wire_bytes ps)

-- a packet more, before the others
relayed_all-cons :
    (p : Packet) (ps : List Packet) (n : Node)
    → relayed_all ps (record n {
      on_air = n.on_air ++ wire_bytes p ∷ [];
      stats = record n.stats { relayed = n.stats.relayed + 1; sent = n.stats.sent + 1 };
    })
      ≡ relayed_all (p ∷ ps) n
relayed_all-cons p ps n =
    node_of_parts n ((n.on_air ++ wire_bytes p ∷ []) ++ map wire_bytes ps)
      (n.on_air ++ map wire_bytes (p ∷ ps)) (n.stats.relayed + 1 + length ps)
      (n.stats.relayed + length (p ∷ ps)) (n.stats.sent + 1 + length ps)
      (n.stats.sent + length (p ∷ ps))
      (append_assoc n.on_air (wire_bytes p ∷ []) (map wire_bytes ps)) (omega arith) (omega arith)

relayed_all-nil : (n : Node) → n ≡ relayed_all [] n
relayed_all-nil n =
    node_of_parts n n.on_air (n.on_air ++ []) n.stats.relayed (n.stats.relayed + 0) n.stats.sent
      (n.stats.sent + 0) (sym (append-nil n.on_air)) (omega arith) (omega arith)

-- a radio that takes all the relays, and one that does not
relays_taken :
    (k : ℕ) (ps : List Packet) (n : Node)
    → All Wire.IsValid ps
    → length ps ≤ k
    → send_relays_until k ps n ≡ (ok (k - length ps), relayed_all ps n)
unfolding send_relays_until
relays_taken k [] n a h = ap₂ (λ l m. (ok l, m)) (omega arith) (relayed_all-nil n)
relays_taken zero (p ∷ ps) n a h = absurd (omega arith)
relays_taken (suc k) (p ∷ ps) n a h =
    rw (send_relays_until, transmit_lem p n a.0, and_then)
      (relays_taken k ps _ a.1 (omega (arith, h))
        ∙ ap₂ (λ l m. (ok l, m)) (omega arith) (relayed_all-cons p ps n))

relays_cut :
    (k : ℕ) (ps : List Packet) (n : Node)
    → All Wire.IsValid ps
    → k < length ps
    → ((send_relays_until k ps n).0 ≡ err os_error)
      × ((send_relays_until k ps n).1.on_air ≡ n.on_air ++ take k (map wire_bytes ps))
unfolding send_relays_until
relays_cut k [] n a h = absurd (omega arith)
relays_cut zero (p ∷ ps) n a h =
    rw (send_relays_until, refused_lem p n a.0, and_then) (refl, sym (append-nil n.on_air))
relays_cut (suc k) (p ∷ ps) n a h =
    let n1 = record n {
      on_air = n.on_air ++ wire_bytes p ∷ [];
      stats = record n.stats { relayed = n.stats.relayed + 1; sent = n.stats.sent + 1 };
    } in
    let (raised, air) = relays_cut k ps n1 a.1 (omega (arith, h)) in
    rw (send_relays_until, transmit_lem p n a.0, and_then)
      (raised, air ∙ append_assoc n.on_air (wire_bytes p ∷ []) (take k (map wire_bytes ps)))

-- Of what there is to send, as much as the radio takes is on the air; if that is not all, the socket
-- raised.
abbrev pub IsSent : ℕ → List Bytes → Node → Result (Unit {0}) × Node → Type 0
IsSent k wanted n (r, n') =
    (n'.on_air ≡ n.on_air ++ take k wanted)
    × (if leb (length wanted) k then r ≡ ok tt else r ≡ err os_error)

announce_due_until-IsSent :
    (crypto : Crypto) (k : ℕ) (turn : Turn) (n : Node)
    → IsValid n
    → IsTurn turn
    → IsSent k (announce_bytes crypto turn n) n (announce_due_until crypto k turn n)
unfolding announce_due_until send_announce_until
announce_due_until-IsSent crypto k turn n v t = elim (Bool-cases (leb n.next_announce turn.now)) [
  | inr early ↦
      rw (announce_due_until, early)
        (
          sym (ap (◌++◌ n.on_air) (take-nil k) ∙ append-nil n.on_air),
          rw (le→leb 0 k (omega arith)) refl,
        )
  | inl ready ↦ rw (announce_due_until, ready) (sent k)
]
  where
    sent :
        (k : ℕ)
        → IsSent k
            (wire_bytes (announce_packet crypto turn.announce n) ∷ [])
            n
            (and_then (send_announce_until crypto k turn.announce n) (λ _ n1. (ok tt, n1)))
    sent zero =
        let p = announce_packet crypto turn.announce n in
        let n1 = record n {
          flooder = record n.flooder {
            seen = Seen.add turn.announce.added_at (key p) n.flooder.seen;
          };
        } in
        let refused_it =
          refused_lem p n1 (announce_packet-IsValid crypto turn.announce n v t.draw) in
        rw (send_announce_until, made crypto turn.announce n v t.draw, and_then, refused_it)
          (sym (append-nil n.on_air), refl)
    sent (suc k) =
        rw (send_announce_until, send_announce_lem crypto turn.announce n v t.draw, and_then)
          (
            ap (λ l. n.on_air ++ wire_bytes (announce_packet crypto turn.announce n) ∷ l)
                (sym (take-nil k)),
            rw (le→leb 1 (suc k) (omega arith)) refl,
          )

-- a turn, behind its relays
abbrev ending : Crypto → Turn → ℕ → Node → Result (Unit {0}) × Node
ending crypto turn left n =
    and_then (announce_due_until crypto left turn n)
      (λ _ n3. and_then (tick_routes turn.tick_at n3) (λ _ n4. expire_due turn n4))

-- a turn, behind the packet that was received
abbrev rest_until : Crypto → Turn → ℕ → Node → Result (Unit {0}) × Node
rest_until crypto turn k n =
    and_then (relay_due_until k turn.due_at n) (λ left n2. ending crypto turn left n2)

-- what follows on the sends
housekeeping :
    (turn : Turn) (k : ℕ) (wanted : List Bytes) (n : Node) (r : Result (Unit {0}) × Node)
    → IsTurn turn
    → IsSent k wanted n r
    → IsValid r.1
    → IsSent k wanted n
        (and_then r (λ _ n3. and_then (tick_routes turn.tick_at n3) (λ _ n4. expire_due turn n4)))
housekeeping turn k wanted n (err e, n3) t h v = h
housekeeping turn k wanted n (ok u, n3) t (air, end) v =
    let (u4, fine4, v4) = tick_routes-IsSafe turn.tick_at n3 v t.tick_fits in
    let n4 = (tick_routes turn.tick_at n3).1 in
    let (u5, fine5, v5) = expire_due-IsSafe turn n4 v4 in
    rw (fine4, and_then)
      (
        (expire_due-Keeps turn n4).on_air ∙ (tick_routes-Keeps turn.tick_at n3).on_air ∙ air,
        elim (Bool-cases (leb (length wanted) k)) [
          | inl all ↦ rw all fine5
          | inr some_of ↦ absurd (cc (rw some_of at end))
        ],
      )

-- a first part that was sent, or that was cut
IsSent-append :
    (k : ℕ) (xs ys : List Bytes) (n n2 : Node) (r : Result (Unit {0}) × Node)
    → length xs ≤ k
    → n2.on_air ≡ n.on_air ++ xs
    → IsSent (k - length xs) ys n2 r
    → IsSent k (xs ++ ys) n r
IsSent-append k xs ys n n2 (r, n') few same (air, end) =
    let total = length-append xs ys in
    let alike : leb (length (xs ++ ys)) k ≡ leb (length ys) (k - length xs) =
      ground (arith, total, few) in
    (
      air
          ∙ ap (λ a. a ++ take (k - length xs) ys) same
          ∙ append_assoc n.on_air xs (take (k - length xs) ys)
          ∙ ap (◌++◌ n.on_air) (sym (take-append_long k xs ys few)),
      rw alike end,
    )

IsSent-cut :
    (k : ℕ) (xs ys : List Bytes) (n n' : Node)
    → k < length xs
    → n'.on_air ≡ n.on_air ++ take k xs
    → IsSent k (xs ++ ys) n (err os_error, n')
IsSent-cut k xs ys n n' many air =
    let more : leb (length (xs ++ ys)) k ≡ false =
      gt→leb _ _ (omega (arith, length-append xs ys, many)) in
    (air ∙ ap (◌++◌ n.on_air) (sym (take-append_short k xs ys (omega (arith, many)))), rw more refl)

module _ (crypto : Crypto) (turn : Turn) (t : IsTurn turn) (n : Node) (v : IsValid n) where
  abbrev due_now : List Packet
  due_now = expired turn.due_at n.flooder.pending

  abbrev relaying : Node
  relaying = record n { flooder = after_due turn.due_at n.flooder }

  relays_due : (k : ℕ) → relay_due_until k turn.due_at n ≡ send_relays_until k due_now relaying
  unfolding relay_due_until
  relays_due k =
      rw (relay_due_until, due-after_due turn.due_at n.flooder v.flooder.distinct, and_then) refl

  rest_until-IsSent :
      (k : ℕ)
      → IsSent k
          (map wire_bytes due_now ++ announce_bytes crypto turn n)
          n
          (rest_until crypto turn k n)
  rest_until-IsSent k =
      let wire = length-wire_bytes due_now in
      let all = expired-All turn.due_at n.flooder.pending v.relays in
      elim (Bool-cases (leb (length due_now) k)) [
        | inl fits ↦
            let few = leb→le (length due_now) k fits in
            let left = k - length (map wire_bytes due_now) in
            let n2 = relayed_all due_now relaying in
            let taken : relay_due_until k turn.due_at n ≡ (ok left, n2) =
              relays_due k
              ∙ relays_taken k due_now relaying all few
              ∙ ap (λ (l : ℕ). (ok l, n2)) (omega (arith, wire)) in
            let v2 : IsValid n2 =
              subst (λ (r : Result ℕ × Node). IsValid r.1) taken
                (relay_due_until-Survives k turn.due_at n v).1 in
            rw (taken, and_then)
              (IsSent-append k (map wire_bytes due_now) (announce_bytes crypto turn n) n n2
                (ending crypto turn left n2) (omega (arith, wire, few)) refl
                (housekeeping turn left (announce_bytes crypto turn n) n2
                  (announce_due_until crypto left turn n2) t
                  (announce_due_until-IsSent crypto left turn n2 v2 t)
                  (announce_due_until-Survives crypto left turn n2 v2 t.draw).1))
        | inr many ↦
            let over = leb→gt (length due_now) k many in
            let (raised, air) = relays_cut k due_now relaying all over in
            rw (relays_due k, raised, and_then)
              (IsSent-cut k (map wire_bytes due_now) (announce_bytes crypto turn n) n
                (send_relays_until k due_now relaying).1 (omega (arith, wire, over)) air)
      ]

module _ (crypto : Crypto) (decode : Bytes → Name) (uniform : Micros → Micros → Micros)
    (turn : Turn) where
  -- A turn on a valid node and a radio that takes `k` packets sends the first `k` of the relays whose time
  -- has come, those included that the frame just received left pending, and the announce if it is time,
  -- in this order. If that is all of them, the turn does what it does on a radio that never goes
  -- away, and raises nothing; else it raises the OSError of the socket.
  pub poll_until_sends :
      (buf : Option Bytes) (k : ℕ) (n : Node)
      → AreReceived buf
      → IsTurn turn
      → IsValid n
      → (got : Option (Bytes × Meta)) × (recv buf ≡ ok got)
        × (let n1 = (handle_got crypto decode uniform turn got n).1 in
            let wanted =
              map wire_bytes (expired turn.due_at n1.flooder.pending)
              ++ announce_bytes crypto turn n1 in
            let out = poll_until crypto decode uniform turn (heard buf k) n in
            IsSent k wanted n out
            × (leb (length wanted) k ≡ true → out ≡ poll crypto decode uniform turn buf n))
  unfolding poll_until
  poll_until_sends buf k n a t v =
      let (got, received, delivered) = recv-IsDelivered buf a in
      let n1 = (handle_got crypto decode uniform turn got n).1 in
      let (u1, fine1, v1) = handle_got-IsSafe crypto decode uniform turn t got n delivered v in
      let (air1, next1, every1) = handle_got_air crypto decode uniform turn got n in
      let wanted =
        map wire_bytes (expired turn.due_at n1.flooder.pending) ++ announce_bytes crypto turn n1 in
      let out = poll_until crypto decode uniform turn (heard buf k) n in
      let (air, end) = rest_until-IsSent crypto turn t n1 v1 k in
      let sent : IsSent k wanted n out =
        rw (poll_until, received, and_then, fine1) (air ∙ ap (λ b. b ++ take k wanted) air1, end) in
      (
        got,
        received,
        (
          sent,
          λ all. elim (poll_until-poll crypto decode uniform turn buf k n) [
            | inl raised ↦ absurd (cc (rw all at sent.1, raised))
            | inr same ↦ same
          ],
        ),
      )
