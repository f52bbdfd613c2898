-- ===== src/Node/Outage/Agrees.antt =====
-- The turn on a radio that may go away is the plain turn, unless the socket raises.
use wifipi.Prelude.{
  none, subst, refl, leb, List, ◌⊎◌, Bool-cases, Option, ℕ, ◌≡◌, inl, inr, ◌∷◌, [], zero, suc,
  list_eq, pair_eq,
}
use wifipi.Prelude.Result.{Result, ok, err, os_error, and_then}
use wifipi.Prelude.Time.{Micros}
use wifipi.Bytes.{Bytes}
use wifipi.Identity.{Crypto, build_announce}
use wifipi.Routes.Entry.{Name}
use wifipi.Link.{recv}
use wifipi.Flood.{due}
use wifipi.Frame.{version, flag_no_ack, type_announce, broadcast, make, Packet}
use wifipi.Node.{Node}
use wifipi.Node.Loop.{
  Draw, Turn, transmit, send_announce, send_relays, relay_due, announce_due, handle_got, poll,
}
use wifipi.Node.Outage.{
  refused, send_relays_until, send_announce_until, relay_due_until, announce_due_until, heard,
  poll_until,
}

-- the same, but for what is answered
abbrev IsSame : {A B : Type 0} → Result A → Result B → Type 0
IsSame (ok a) (ok b) = Unit
IsSame (err e) (err f) = e ≡ f
IsSame _ _ = ⊥

-- An `OSError`, or the same node with the same exception or with none.
abbrev Agrees : {A B : Type 0} → Result A × Node → Result B × Node → Type 0
Agrees (r, n) (s, m) = (r ≡ err os_error) ⊎ ((n ≡ m) × IsSame r s)

Agrees-self : {A : Type 0} (r : Result A × Node) → Agrees r r
Agrees-self (ok a, n) = inr (refl, tt)
Agrees-self (err e, n) = inr (refl, refl)

-- the same first step
Agrees-rest :
    {A B C : Type 0} (r : Result A × Node) (f : A → Node → Result B × Node)
    (g : A → Node → Result C × Node)
    → ((a : A) (n : Node) → Agrees (f a n) (g a n))
    → Agrees (and_then r f) (and_then r g)
Agrees-rest (ok a, n) f g next = next a n
Agrees-rest (err e, n) f g next = inr (refl, refl)

Agrees-and_then :
    {A B A' B' : Type 0} (r : Result A × Node) (s : Result B × Node)
    (f : A → Node → Result A' × Node) (g : B → Node → Result B' × Node)
    → Agrees r s
    → ((a : A) (b : B) (n : Node) → Agrees (f a n) (g b n))
    → Agrees (and_then r f) (and_then s g)
Agrees-and_then (ok a, n) (ok b, m) f g (inr (same, u)) next =
    subst (λ x. Agrees (f a n) (g b x)) same (next a b n)
Agrees-and_then (ok a, n) (err e, m) f g (inr (same, u)) next = absurd u
Agrees-and_then (err e, n) (ok b, m) f g (inr (same, u)) next = absurd u
Agrees-and_then (err e, n) (err d, m) f g (inr (same, u)) next = inr (same, u)
Agrees-and_then (err e, n) s f g (inl raised) next = inl (cc)
Agrees-and_then (ok a, n) s f g (inl raised) next = cc

refused-Agrees :
    {A B : Type 0} (p : Packet) (n : Node) (f : Unit {0} → Node → Result A × Node)
    (g : Unit {0} → Node → Result B × Node)
    → Agrees (and_then (refused p n) f) (and_then (transmit p n) g)
unfolding refused
refused-Agrees {A = A} {B = B} p n f g = go (transmit p n)
  where
    go :
        (r : Result (Unit {0}) × Node)
        → Agrees
            (and_then (and_then {B = Unit {0}} r (λ _ sent. (err os_error, n))) f)
            (and_then r g)
    go (err e, m) = inr (refl, refl)
    go (ok u, m) = inl refl

send_relays_until-Agrees :
    (k : ℕ) (ps : List Packet) (n : Node) → Agrees (send_relays_until k ps n) (send_relays ps n)
unfolding send_relays_until send_relays
send_relays_until-Agrees k [] n = inr (refl, tt)
send_relays_until-Agrees zero (p ∷ ps) n = refused-Agrees p n _ _
send_relays_until-Agrees (suc k) (p ∷ ps) n =
    Agrees-rest (transmit p n) _ _ (λ _ n1. send_relays_until-Agrees k ps _)

relay_due_until-Agrees :
    (k : ℕ) (now : Micros) (n : Node) → Agrees (relay_due_until k now n) (relay_due now n)
unfolding relay_due_until relay_due
relay_due_until-Agrees k now n =
    let (out, f) = due now n.flooder in
    Agrees-rest (out, record n { flooder = f }) _ _
      (λ packets n1. send_relays_until-Agrees k packets n1)

send_announce_until-Agrees :
    (crypto : Crypto) (k : ℕ) (d : Draw) (n : Node)
    → Agrees (send_announce_until crypto k d n) (send_announce crypto d n)
unfolding send_announce_until send_announce
send_announce_until-Agrees crypto zero d n =
    Agrees-rest
      (
        make n.node_id broadcast type_announce (build_announce crypto d.random n.name n.identity)
            flag_no_ack n.hop_limit none version d.packet_id,
        n,
      )
      _ _ (λ p n0. refused-Agrees p _ _ _)
send_announce_until-Agrees crypto (suc k) d n = Agrees-self (send_announce crypto d n)

announce_due_until-Agrees :
    (crypto : Crypto) (k : ℕ) (turn : Turn) (n : Node)
    → Agrees (announce_due_until crypto k turn n) (announce_due crypto turn n)
unfolding announce_due_until announce_due
announce_due_until-Agrees crypto k turn n = elim (Bool-cases (leb n.next_announce turn.now)) [
  | inl ready ↦
      rw (announce_due_until, announce_due, ready)
        (Agrees-and_then (send_announce_until crypto k turn.announce n)
          (send_announce crypto turn.announce n) _ _
          (send_announce_until-Agrees crypto k turn.announce n) (λ _ _ n1. inr (refl, tt)))
  | inr early ↦ rw (announce_due_until, announce_due, early) (inr (refl, tt))
]

Agrees-equal : (r s : Result (Unit {0}) × Node) → Agrees r s → (r.0 ≡ err os_error) ⊎ (r ≡ s)
Agrees-equal (r, n) s (inl raised) = inl raised
Agrees-equal (ok u, n) (ok w, m) (inr (same, h)) = inr (λ i. (ok u, same i))
Agrees-equal (ok u, n) (err e, m) (inr (same, h)) = absurd h
Agrees-equal (err e, n) (ok w, m) (inr (same, h)) = absurd h
Agrees-equal (err e, n) (err f, m) (inr (same, h)) = inr (λ i. (err (h i), same i))

module _ (crypto : Crypto) (decode : Bytes → Name) (uniform : Micros → Micros → Micros) where
  -- A turn on a radio that takes some packets and then goes away either raises the OSError of the socket, or
  -- is the turn on a radio that takes them all, whatever the node is and whatever was received.
  pub poll_until-poll :
      (turn : Turn) (buf : Option Bytes) (k : ℕ) (n : Node)
      → ((poll_until crypto decode uniform turn (heard buf k) n).0 ≡ err os_error)
        ⊎ (poll_until crypto decode uniform turn (heard buf k) n
            ≡ poll crypto decode uniform turn buf n)
  unfolding poll_until poll
  poll_until-poll turn buf k n = Agrees-equal _ _ (
      Agrees-rest (recv buf, n) _ _
        (λ got n0. Agrees-rest (handle_got crypto decode uniform turn got n0) _ _ (λ _ n1.
          Agrees-and_then (relay_due_until k turn.due_at n1) (relay_due turn.due_at n1) _ _
            (relay_due_until-Agrees k turn.due_at n1)
            (λ left _ n2.
              Agrees-and_then (announce_due_until crypto left turn n2) (announce_due crypto turn n2)
                _ _ (announce_due_until-Agrees crypto left turn n2) (λ _ _ n3. Agrees-self _)))))
