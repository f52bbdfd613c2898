-- ===== src/Routes/Table/Settle.antt =====
-- `_settle`: the candidates whose wait is over are committed.
use mathlib.Core.List.{append_assoc}
use wifipi.Prelude.Result.{and_then, ok}
use wifipi.Bytes.{Bytes}
use wifipi.Prelude.Time.{Micros}
use wifipi.Prelude.Dict.{
  remove-middle, get-middle, get, get-remove_self, remove, Distinct, Distinct-middle, Dict,
}
use wifipi.Routes.Cold.{no_extras}
use wifipi.Routes.Table.Committed.{get-commit, length-commit}
use wifipi.Prelude.{
  true, false, ◌+◌, ◌≤◌, length, Option, none, ◌==◌, eq_iff, ap, eq_refl, sym, ◌∙◌, inr, inl,
  Bool-cases, subst, ◌<◌, ◌++◌, arith, leb, if◌then◌else◌, ◌≡◌, [], ◌∷◌, list_eq, refl, some,
}
use wifipi.Routes.Table.{
  RouteTable, Candidate, Clocks, Heard, put_hot, buffer_cold, commit, settled, commit_all, settle,
}
use wifipi.Routes.Table.Hot.{IsValid}
use wifipi.Routes.Table.Learn.{heard_bytes, dropped-IsValid, HeardInRange, Installed, commit_lem}

-- The candidates that go on waiting.
unfoldable pub unsettled : Micros → Dict Bytes Candidate → Dict Bytes Candidate
unsettled now [] = []
unsettled now ((id, c) ∷ d) =
    let rest = unsettled now d in if leb c.commit_at now then rest else (id, c) ∷ rest

abbrev pub heard_of : Candidate → Heard
heard_of c = record { next_hop = c.next_hop; hops = c.hops; rssi = some c.rssi; extras = no_extras }

-- Every candidate can be written at the time of the settle.
abbrev pub AllInRange : Clocks → Dict Bytes Candidate → Type 0
AllInRange now [] = Unit
AllInRange now ((id, c) ∷ d) = HeardInRange now (heard_of c) × AllInRange now d

pub pending-commit :
    (now : Clocks) (id : Bytes) (h : Heard) (t : RouteTable)
    → ((commit now id h t).1.pending ≡ t.pending) × ((commit now id h t).1.max_hot ≡ t.max_hot)
unfolding commit put_hot buffer_cold
pending-commit now id h t = ground arith

commit_all-settled :
    (now : Clocks) (d front : Dict Bytes Candidate) (t : RouteTable)
    → t.pending ≡ front ++ d
    → AllInRange now d
    → IsValid t
    → 0 < t.max_hot
    → ((commit_all now (settled now.wall d) t).0 ≡ ok tt)
      × IsValid (commit_all now (settled now.wall d) t).1
      × ((commit_all now (settled now.wall d) t).1.pending ≡ front ++ unsettled now.wall d)
unfolding commit_all settled unsettled
commit_all-settled now [] front t e r v room = (refl, v, e)
commit_all-settled now ((id, c) ∷ d) front t e r v room =
    let (a, b, u) = Distinct-middle front id c d (subst (λ x. Distinct x) e v.candidates) in
    elim (Bool-cases (leb c.commit_at now.wall)) [
      | inl done ↦
          let t1 = record t { pending = remove id t.pending } in
          let found : get t.pending id ≡ some c = rw e (get-middle front id c d a) in
          let gone : remove id t.pending ≡ front ++ d = rw e (remove-middle front id c d a b) in
          let (fine, valid, there) =
            commit_lem now id (heard_of c) t1 r.0 (dropped-IsValid id t v) room
              (get-remove_self id t.pending) in
          let (same, limit) = pending-commit now id (heard_of c) t1 in
          let rest =
            commit_all-settled now d front (commit now id (heard_of c) t1).1 (same ∙ gone) r.1 valid
              (rw limit room) in
          rw (done, found, commit_all, fine, and_then) rest
      | inr later ↦ rw later (
          subst
            (λ l.
              ((commit_all now (settled now.wall d) t).0 ≡ ok tt)
              × IsValid (commit_all now (settled now.wall d) t).1
              × ((commit_all now (settled now.wall d) t).1.pending ≡ l))
            (append_assoc front ((id, c) ∷ []) (unsettled now.wall d))
            (commit_all-settled now d (front ++ (id, c) ∷ []) t
              (e ∙ sym (append_assoc front ((id, c) ∷ []) d)) r.1 v room))
    ]

-- What a settle leaves of the entry that a node had, by its candidate.
abbrev pub settled_entry : Clocks → Option Candidate → Option Bytes → Option Bytes
settled_entry now none held = held
settled_entry now (some c) held =
    if leb c.commit_at now.wall then some (heard_bytes now (heard_of c)) else held

settled_entry-done :
    (now : Clocks) (id j : Bytes) (c : Candidate) (d : Dict Bytes Candidate) (held : Option Bytes)
    → leb c.commit_at now.wall ≡ true
    → get d id ≡ none
    → settled_entry now (get d j) (if id == j then some (heard_bytes now (heard_of c)) else held)
      ≡ settled_entry now (get ((id, c) ∷ d) j) held
unfolding get
settled_entry-done now id j c d held done absent = elim (Bool-cases (id == j)) [
  | inl same ↦
      let gone : get d j ≡ none = subst (λ k. get d k ≡ none) ((eq_iff id j).0 same) absent in
      rw (same, gone, done) refl
  | inr other ↦ rw other refl
]

settled_entry-later :
    (now : Clocks) (id j : Bytes) (c : Candidate) (d : Dict Bytes Candidate) (held : Option Bytes)
    → leb c.commit_at now.wall ≡ false
    → get d id ≡ none
    → settled_entry now (get d j) held ≡ settled_entry now (get ((id, c) ∷ d) j) held
unfolding get
settled_entry-later now id j c d held later absent = elim (Bool-cases (id == j)) [
  | inl same ↦
      let gone : get d j ≡ none = subst (λ k. get d k ≡ none) ((eq_iff id j).0 same) absent in
      rw (same, gone, later) refl
  | inr other ↦ rw other refl
]

get-commit_all :
    (now : Clocks) (d front : Dict Bytes Candidate) (t : RouteTable)
    → t.pending ≡ front ++ d
    → AllInRange now d
    → IsValid t
    → length t.hot + length d ≤ t.max_hot
    → (j : Bytes)
    → get (commit_all now (settled now.wall d) t).1.hot j
      ≡ settled_entry now (get d j) (get t.hot j)
unfolding commit_all settled get
get-commit_all now [] front t e r v few j = refl
get-commit_all now ((id, c) ∷ d) front t e r v few j =
    let (a, b, u) = Distinct-middle front id c d (subst (λ x. Distinct x) e v.candidates) in
    elim (Bool-cases (leb c.commit_at now.wall)) [
      | inl done ↦
          let t1 = record t { pending = remove id t.pending } in
          let found : get t.pending id ≡ some c = rw e (get-middle front id c d a) in
          let gone : remove id t.pending ≡ front ++ d = rw e (remove-middle front id c d a b) in
          let (fine, valid, there) =
            commit_lem now id (heard_of c) t1 r.0 (dropped-IsValid id t v) (omega (arith, few))
              (get-remove_self id t.pending) in
          let (same, limit) = pending-commit now id (heard_of c) t1 in
          let t2 = (commit now id (heard_of c) t1).1 in
          let grown = length-commit now id (heard_of c) t1 r.0 (omega (arith, few)) in
          let read = get-commit now id (heard_of c) t1 r.0 (omega (arith, few)) j in
          let rest =
            get-commit_all now d front t2 (same ∙ gone) r.1 valid (omega (arith, few, limit, grown))
              j in
          rw (done, found, commit_all, fine, and_then)
            (rest
              ∙ ap (settled_entry now (get d j)) read
              ∙ settled_entry-done now id j c d (get t.hot j) done b)
      | inr later ↦
          let rest =
            get-commit_all now d (front ++ (id, c) ∷ []) t
              (e ∙ sym (append_assoc front ((id, c) ∷ []) d)) r.1 v (omega (arith, few)) j in
          rw later (rest ∙ settled_entry-later now id j c d (get t.hot j) later b)
    ]

-- On a valid table with room for an entry, `_settle` never fails on candidates in range, takes off exactly
-- those whose wait is over, and keeps the table valid. If the table has room for all that wait, the
-- entry of each node afterwards is that of its candidate if its wait is over, written at the time of the
-- settle, and the one it had otherwise.
pub settle_lem :
    (now : Clocks) (t : RouteTable)
    → IsValid t
    → AllInRange now t.pending
    → 0 < t.max_hot
    → ((settle now t).0 ≡ ok tt)
      × IsValid (settle now t).1
      × ((settle now t).1.pending ≡ unsettled now.wall t.pending)
      × (length t.hot + length t.pending ≤ t.max_hot
          → (id : Bytes)
          → get (settle now t).1.hot id ≡ settled_entry now (get t.pending id) (get t.hot id))
unfolding settle
settle_lem now t v r room =
    let (fine, valid, waiting) = commit_all-settled now t.pending [] t refl r v room in
    (fine, valid, waiting, λ few id. get-commit_all now t.pending [] t refl r v few id)

-- A longer route is committed when its wait is over: from a valid table with
-- room in which it is the one candidate, in range,
-- a settle at its deadline or later installs it in place of the held route, and one before the
-- deadline changes nothing.
pub settle_one :
    (now : Clocks) (t : RouteTable) (id : Bytes) (c : Candidate)
    → IsValid t
    → HeardInRange now (heard_of c)
    → 0 < t.max_hot
    → t.pending ≡ (id, c) ∷ []
    → (if leb c.commit_at now.wall
        then ((settle now t).0 ≡ ok tt) × Installed now id (heard_of c) (settle now t).1
        else settle now t ≡ (ok tt, t))
unfolding settle settled commit_all
settle_one now t id c v r room only = elim (Bool-cases (leb c.commit_at now.wall)) [
  | inl done ↦
      let t1 = record t { pending = remove id t.pending } in
      let (fine, valid, there) =
        commit_lem now id (heard_of c) t1 r (dropped-IsValid id t v) room
          (get-remove_self id t.pending) in
      let found : get t.pending id ≡ some c = rw only (unfold get in rw eq_refl refl) in
      let ids : settled now.wall t.pending ≡ id ∷ [] =
        ap (settled now.wall) only ∙ (rw done refl) in
      rw (done, ids, found, commit_all, fine, and_then) (refl, there)
  | inr early ↦
      let ids : settled now.wall t.pending ≡ [] = ap (settled now.wall) only ∙ (rw early refl) in
      rw (early, ids) refl
]
