-- ===== src/Flood/Due.antt =====
-- `due` and `next_deadline`: the relays whose time has come, and when the next one comes.
use mathlib.Core.List.{append_assoc}
use wifipi.Prelude.{
  Bool, false, refl, Option, ltb, sym, ◌∙◌, subst, ap, ℕ, suc, inr, inl, Bool-cases, list_eq,
  pair_eq, [], ◌∷◌,
}
use wifipi.Prelude.Result.{Result, ok}
use wifipi.Frame.{Packet, Key}
use wifipi.Prelude.{arith, leb, if◌then◌else◌, some, none, ◌≡◌, ◌++◌, ◌∷◌, length, List, ◌+◌}
use wifipi.Prelude.Time.{Micros}
use wifipi.Prelude.Dict.{remove-middle, get-middle, Distinct-middle, Distinct, remove, Dict, get}
use wifipi.Flood.{Flooder, Pending, ready, pop_all, due, earliest, next_deadline}

-- The pending relays whose time has not come.
unfoldable pub waiting : Micros → Dict Key Pending → Dict Key Pending
waiting now [] = []
waiting now ((k, q) ∷ d) =
    let rest = waiting now d in if leb q.send_at now then rest else (k, q) ∷ rest

-- The packets whose time has come, in the order in which they were scheduled.
unfoldable pub expired : Micros → Dict Key Pending → List Packet
expired now [] = []
expired now ((k, q) ∷ d) =
    let rest = expired now d in if leb q.send_at now then q.packet ∷ rest else rest

unfoldable pub after_due : Micros → Flooder → Flooder
unfolding waiting expired
after_due now f = record f {
  pending = waiting now f.pending;
  stats = record f.stats { relayed = f.stats.relayed + length (expired now f.pending) };
}

abbrev with_popped : Flooder → Dict Key Pending → ℕ → Flooder
with_popped f d n = record f { pending = d; stats = record f.stats { relayed = n } }

-- `pop_all` on the ready keys of a suffix, the entries before which are not ready.
pop_all-ready :
    (now : Micros) (d front : Dict Key Pending) (f : Flooder)
    → f.pending ≡ front ++ d
    → Distinct (front ++ d)
    → pop_all (ready now d) f ≡ (
      ok (expired now d),
      with_popped f (front ++ waiting now d) (f.stats.relayed + length (expired now d)),
    )
unfolding pop_all ready waiting expired
pop_all-ready now [] front f e u =
    let n : f.stats.relayed ≡ f.stats.relayed + 0 = omega arith in
    let d : f.pending ≡ front ++ [] = e in λ i. (ok [], with_popped f (d i) (n i))
pop_all-ready now ((k, q) ∷ d) front f e u =
    let (a, b, c) = Distinct-middle front k q d u in
    let popped = with_popped f (front ++ d) (f.stats.relayed + 1) in
    elim (Bool-cases (leb q.send_at now)) [
      | inl done ↦
          let rest = pop_all-ready now d front popped refl c in
          let n : f.stats.relayed + 1 + length (expired now d)
              ≡ f.stats.relayed + suc (length (expired now d)) =
            omega arith in
          let found : get f.pending k ≡ some q = rw e (get-middle front k q d a) in
          let gone : remove k f.pending ≡ front ++ d = rw e (remove-middle front k q d a b) in
          rw (done, found, pop_all, gone, rest)
            (ap (λ m. (ok (q.packet ∷ expired now d), with_popped f (front ++ waiting now d) m)) n)
      | inr later ↦ rw later (
          subst
            (λ l.
              pop_all (ready now d) f
              ≡ (ok (expired now d), with_popped f l (f.stats.relayed + length (expired now d))))
            (append_assoc front ((k, q) ∷ []) (waiting now d))
            (pop_all-ready now d (front ++ (k, q) ∷ []) f
              (e ∙ sym (append_assoc front ((k, q) ∷ []) d))
              (rw (append_assoc front ((k, q) ∷ []) d) u)))
    ]

-- If no key is pending twice, `due` never fails: it returns exactly the pending packets whose time
-- has come, in the order in which they were scheduled, counts each of them as relayed, and leaves
-- exactly the others pending.
pub due-after_due :
    (now : Micros) (f : Flooder)
    → Distinct f.pending
    → due now f ≡ (ok (expired now f.pending), after_due now f)
unfolding due after_due
due-after_due now f u = pop_all-ready now f.pending [] f refl u

-- Whether a deadline has come.
abbrev pub reached : Micros → Option Micros → Bool
reached now none = false
reached now (some t) = leb t now

expired-reached :
    (now : Micros) (d : Dict Key Pending)
    → ltb 0 (length (expired now d)) ≡ reached now (earliest d)
unfolding expired earliest
expired-reached now [] = refl
expired-reached now ((k, q) ∷ d) = ground (arith, expired-reached now d)

pub waiting-reached :
    (now : Micros) (d : Dict Key Pending) → reached now (earliest (waiting now d)) ≡ false
unfolding waiting earliest
waiting-reached now [] = refl
waiting-reached now ((k, q) ∷ d) = ground (arith, waiting-reached now d)

-- If no key is pending twice, `next_deadline` is exact: `due` returns something exactly if the
-- deadline has come, and what it leaves pending has a deadline that has not.
pub next_deadline-due :
    (now : Micros) (f : Flooder)
    → Distinct f.pending
    → (out : List Packet) × ((due now f).0 ≡ ok out)
      × (ltb 0 (length out) ≡ reached now (next_deadline f))
      × (reached now (next_deadline (due now f).1) ≡ false)
unfolding next_deadline
next_deadline-due now f u = (
  expired now f.pending,
  ap (λ (r : Result (List Packet) × Flooder). r.0) (due-after_due now f u),
  expired-reached now f.pending,
  rw (due-after_due now f u) (unfold after_due in waiting-reached now f.pending),
)
