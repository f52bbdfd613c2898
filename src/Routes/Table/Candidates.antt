-- ===== src/Routes/Table/Candidates.antt =====
-- The candidates that wait can all be written: a settle never fails.
use wifipi.Prelude.{
  ap, ◌∙◌, subst, sym, ℕ, ◌<◌, ◌≡◌, refl, ◌^◌, length, List, [], ◌∷◌, list_eq, inl, inr, arith, leb,
  Bool-cases, Option-cases, if◌then◌else◌,
}
use wifipi.Prelude.Int.{pos_part, neg_part}
use wifipi.Prelude.Result.{Result, ok, err, and_then}
use wifipi.Prelude.Dict.{Dict, get, remove, AllValues, AllValues-set, AllValues-remove}
use wifipi.Prelude.Time.{Micros}
use wifipi.Bytes.{Bytes}
use wifipi.Struct.{Values}
use wifipi.Routes.Entry.{stored_rssi, whole_seconds, route_fmt, unpack_entry}
use wifipi.Routes.Cold
use wifipi.Routes.Cold.{ColdStore}
use wifipi.Routes.Table.{
  Verdict, new, answer, RouteTable, Candidate, Clocks, Heard, sharpens, deadline, buffer_cold,
  put_hot, commit, settle_later, learn_close, learn_worse, learn, is_self, held_hops, guarded,
  commit_all, settled, settle, tick,
}
use wifipi.Routes.Table.Hot.{IsValid}
use wifipi.Routes.Table.Learn.{HeardInRange}
use wifipi.Routes.Table.Settle.{unsettled, AllInRange, heard_of, settle_lem, pending-commit}

pub record Fits (c : Candidate) : Type 0 where
  pub mac : length c.next_hop ≡ 6
  pub hops_fit : c.hops < 65536
  pub rssi_high : pos_part c.rssi < 128
  pub rssi_low : neg_part c.rssi < 129

abbrev pub AllFit : Dict Bytes Candidate → Type 0
AllFit = AllValues Fits

settle_later-AllFit :
    (now : Clocks) (id : Bytes) (h : Heard) (t : RouteTable)
    → HeardInRange now h
    → AllFit t.pending
    → AllFit (settle_later now id h t).pending
unfolding settle_later
settle_later-AllFit now id h t r a = elim (Bool-cases (sharpens h (get t.pending id))) [
  | inl better ↦
      rw (better, settle_later)
        (AllValues-set Fits id
          (record {
            commit_at = deadline now.wall (get t.pending id);
            next_hop = h.next_hop;
            hops = h.hops;
            rssi = stored_rssi h.rssi;
          })
          t.pending
          (record {
            mac = r.mac;
            hops_fit = r.hops_fit;
            rssi_high = r.rssi_high;
            rssi_low = r.rssi_low;
          })
          a)
  | inr no_better ↦ rw (no_better, settle_later) a
]

pending-learn_close :
    (now : Clocks) (id : Bytes) (h : Heard) (held : Values route_fmt) (t : RouteTable)
    → (learn_close now id h held t).1.pending ≡ remove id t.pending
unfolding learn_close commit put_hot buffer_cold
pending-learn_close now id h held t = ground arith

pending-learn_worse :
    (now : Clocks) (id : Bytes) (h : Heard) (held : Values route_fmt) (t : RouteTable)
    → (learn_worse now id h held t).1.pending
      ≡ (if guarded now.wall held.1.1.1.0 then t.pending else (settle_later now id h t).pending)
unfolding learn_worse buffer_cold
pending-learn_worse now id h held t = ground arith

state-answer : (v : Verdict) (r : Result (Unit {0}) × RouteTable) → (answer v r).1 ≡ r.1
state-answer v (ok u, t) = refl
state-answer v (err e, t) = refl

-- `learn` of an announce in range keeps the candidates writable.
pub learn-AllFit :
    (now : Clocks) (id : Bytes) (h : Heard) (t : RouteTable)
    → HeardInRange now h
    → AllFit t.pending
    → AllFit (learn now id h t).1.pending
unfolding learn
learn-AllFit now id h t r a = elim (Bool-cases (is_self t id)) [
  | inl mine ↦ rw (mine, learn) a
  | inr other ↦ elim (Option-cases (get t.hot id)) [
    | inl absent ↦
        let dropped = record t { pending = remove id t.pending } in
        let same =
          ap (λ (x : RouteTable). x.pending) (state-answer new (commit now id h dropped))
          ∙ (pending-commit now id h dropped).0 in
        rw (other, learn, absent) (subst AllFit (sym same) (AllValues-remove Fits id t.pending a))
    | inr (e, there) ↦ elim (Bool-cases (leb h.hops (held_hops (unpack_entry e)))) [
      | inl close ↦
          rw (other, learn, there, close, pending-learn_close now id h (unpack_entry e) t)
            (AllValues-remove Fits id t.pending a)
      | inr worse ↦
          rw (other, learn, there, worse, pending-learn_worse now id h (unpack_entry e) t)
            (elim (Bool-cases (guarded now.wall (unpack_entry e).1.1.1.0)) [
              | inl early ↦ rw early a
              | inr late ↦ rw late (settle_later-AllFit now id h t r a)
            ])
    ]
  ]
]

unsettled-AllFit : (now : Micros) (d : Dict Bytes Candidate) → AllFit d → AllFit (unsettled now d)
unfolding unsettled
unsettled-AllFit now [] a = tt
unsettled-AllFit now ((id, c) ∷ d) a = elim (Bool-cases (leb c.commit_at now)) [
  | inl done ↦ rw (done, unsettled) (unsettled-AllFit now d a.1)
  | inr later ↦ rw (later, unsettled) (a.0, unsettled-AllFit now d a.1)
]

AllFit-AllInRange :
    (now : Clocks) (d : Dict Bytes Candidate)
    → whole_seconds now.wall < 2 ^ 32
    → AllFit d
    → AllInRange now d
AllFit-AllInRange now [] s a = tt
AllFit-AllInRange now ((id, c) ∷ d) s a = (
  record {
    mac = a.0.mac;
    hops_fit = a.0.hops_fit;
    rssi_high = a.0.rssi_high;
    rssi_low = a.0.rssi_low;
    seen_fits = s;
  },
  AllFit-AllInRange now d s a.1,
)

commit_all-max_hot :
    (now : Clocks) (ids : List Bytes) (t : RouteTable)
    → (commit_all now ids t).1.max_hot ≡ t.max_hot
unfolding commit_all
commit_all-max_hot now [] t = refl
commit_all-max_hot now (id ∷ ids) t = elim (Option-cases (get t.pending id)) [
  | inl absent ↦ rw (absent, commit_all) refl
  | inr (c, found) ↦
      let t1 = record t { pending = remove id t.pending } in
      let same = (pending-commit now id (heard_of c) t1).1 in
      let next = commit_all-max_hot now ids (commit now id (heard_of c) t1).1 in
      rw (found, commit_all) (go (commit now id (heard_of c) t1) same next)
]
  where
    go :
        (r : Result (Unit {0}) × RouteTable)
        → r.1.max_hot ≡ t.max_hot
        → (commit_all now ids r.1).1.max_hot ≡ r.1.max_hot
        → (and_then r (λ _ t'. commit_all now ids t')).1.max_hot ≡ t.max_hot
    go (ok u, t') same next = next ∙ same
    go (err e, t') same next = same

-- An answer that is no error, on a valid table with writable candidates and the limit of `t`.
abbrev pub IsTicked : RouteTable → Result ℕ × RouteTable → Type 0
IsTicked t (r, t') =
    (n : ℕ) × (r ≡ ok n) × IsValid t' × AllFit t'.pending × (t'.max_hot ≡ t.max_hot)

-- On a valid table with room and writable candidates, `tick` never fails at a time of 32 bits: it
-- keeps the table valid, its candidates writable and its limit as it is.
pub tick-IsTicked :
    (now : Clocks) (t : RouteTable)
    → IsValid t
    → AllFit t.pending
    → 0 < t.max_hot
    → whole_seconds now.wall < 2 ^ 32
    → IsTicked t (tick now t)
unfolding tick
tick-IsTicked now t v a room s =
    let (fine, valid, waiting, written) =
      settle_lem now t v (AllFit-AllInRange now t.pending s a) room in
    let fit : AllFit (settle now t).1.pending =
      subst AllFit (sym waiting) (unsettled-AllFit now.wall t.pending a) in
    let limit : (settle now t).1.max_hot ≡ t.max_hot =
      unfold settle in commit_all-max_hot now (settled now.wall t.pending) t in
    elim (Option-cases (settle now t).1.cold) [
      | inl no_store ↦ rw (fine, tick, and_then, no_store) (0, refl, valid, fit, limit)
      | inr (c, store) ↦
          rw (fine, tick, and_then, store)
            (
              (Cold.maybe_flush now.mono c).0,
              refl,
              record {
                bounded = valid.bounded;
                distinct = valid.distinct;
                candidates = valid.candidates;
              },
              fit,
              limit,
            )
    ]
