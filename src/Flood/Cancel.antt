-- ===== src/Flood/Cancel.antt =====
-- Counter cancellation: a relay is dropped when enough other nodes did it first.
use wifipi.Prelude.Dict.{get-remove_self, get-set_self, set, get}
use wifipi.Prelude.Result.{ok}
use wifipi.Prelude.Int.{ℤ}
use wifipi.Prelude.Time.{Micros}
use wifipi.Frame.{key, Packet}
use wifipi.Prelude.{
  le→leb, true, leb, none, ap, ◌∙◌, length, All, gt→leb, some, arith, false, ◌<◌, ◌≡◌, List, Option,
  ◌+◌, ℕ, list_eq, pair_eq, [], ◌∷◌, refl,
}
use wifipi.Flood.{Flooder, Pending, Readings, Verdict, cancelled, on_pending, on_receive, is_own}
use wifipi.Flood.Verdicts.{on_receive_pending}

-- A copy as it is heard: the clock, the packet and the signal.
pub record Copy : Type 0 where
  pub at : Readings
  pub packet : Packet
  pub rssi : Option ℤ

unfoldable pub hear : (Micros → Micros → Micros) → List Copy → Flooder → Flooder
hear uniform [] f = f
hear uniform (c ∷ cs) f = hear uniform cs (on_receive uniform c.at c.packet c.rssi f).1

pub is_own-key :
    (f g : Flooder) (p q : Packet) → f.own_id ≡ g.own_id → key p ≡ key q → is_own f p ≡ is_own g q
unfolding is_own
is_own-key f g p q e h = ground arith

pub on_pending_more :
    (p : Packet) (q : Pending) (f : Flooder)
    → q.heard + 1 < f.threshold
    → on_pending p q f ≡ (
      ok Verdict.duplicate,
      record f { pending = set (key p) (record q { heard = q.heard + 1 }) f.pending },
    )
unfolding on_pending
on_pending_more p q f h = rw (gt→leb f.threshold (q.heard + 1) h)

abbrev heard_from : Pending → ℕ → Pending
heard_from q n = record q { heard = q.heard + n }

module _ (uniform : Micros → Micros → Micros) (p : Packet) where
  -- a copy of a pending packet, by its key
  copy_heard :
      (c : Copy) (q : Pending) (f : Flooder)
      → is_own f p ≡ false
      → get f.pending (key p) ≡ some q
      → key c.packet ≡ key p
      → on_receive uniform c.at c.packet c.rssi f ≡ on_pending c.packet q f
  copy_heard c q f other stored same =
      on_receive_pending uniform c.at c.packet c.rssi f q
        (is_own-key f f c.packet p refl same ∙ other) (rw same stored)

  still_pending :
      (cs : List Copy) (q : Pending) (f : Flooder)
      → is_own f p ≡ false
      → get f.pending (key p) ≡ some q
      → All (λ c. key c.packet ≡ key p) cs
      → q.heard + length cs < f.threshold
      → (get (hear uniform cs f).pending (key p) ≡ some (heard_from q (length cs)))
        × ((hear uniform cs f).threshold ≡ f.threshold)
        × ((hear uniform cs f).own_id ≡ f.own_id)
  unfolding hear
  still_pending [] q f other stored copies few =
      (stored ∙ ap (λ n. some (record q { heard = n })) (omega arith), refl, refl)
  still_pending (c ∷ cs) q f other stored copies few =
      let f' = record f { pending = set (key c.packet) (heard_from q 1) f.pending } in
      let stored' : get f'.pending (key p) ≡ some (heard_from q 1) =
        rw copies.0 (get-set_self (key p) (heard_from q 1) f.pending) in
      let (a, b, d) =
        still_pending cs (heard_from q 1) f' (is_own-key f' f p p refl refl ∙ other) stored'
          copies.1 (omega (arith, few)) in
      rw
        (
          copy_heard c q f other stored copies.0,
          hear,
          on_pending_more c.packet q f (omega (arith, few)),
        )
        (a ∙ ap (λ n. some (record q { heard = n })) (omega arith), b, d)

  -- A pending relay is dropped by exactly the copy that brings the number of relays heard to the
  -- threshold: up to the copy before it stays pending, counting; that copy is answered `cancelled`
  -- and takes it off, and it is counted.
  pub cancelled_at_threshold :
      (cs : List Copy) (last : Copy) (q : Pending) (f : Flooder)
      → is_own f p ≡ false
      → get f.pending (key p) ≡ some q
      → All (λ c. key c.packet ≡ key p) cs
      → key last.packet ≡ key p
      → q.heard + length cs + 1 ≡ f.threshold
      → let g = hear uniform cs f in
        (get g.pending (key p) ≡ some (record q { heard = q.heard + length cs }))
        × ((on_receive uniform last.at last.packet last.rssi g).0 ≡ ok cancelled)
        × (get (on_receive uniform last.at last.packet last.rssi g).1.pending (key p) ≡ none)
        × ((on_receive uniform last.at last.packet last.rssi g).1.stats.cancelled
            ≡ g.stats.cancelled + 1)
  cancelled_at_threshold cs last q f other stored copies same full =
      let (there, limit, id) = still_pending cs q f other stored copies (omega (arith, full)) in
      let g = hear uniform cs f in
      let enough : leb g.threshold (q.heard + length cs + 1) ≡ true =
        le→leb g.threshold (q.heard + length cs + 1) (omega (arith, limit, full)) in
      let heard =
        copy_heard last (heard_from q (length cs)) g (is_own-key g f p p id refl ∙ other) there
          same in
      (
        there,
        rw heard (unfold on_pending in rw enough refl),
        rw heard (unfold on_pending in rw (enough, same) (get-remove_self (key p) g.pending)),
        rw heard (unfold on_pending in rw enough refl),
      )
