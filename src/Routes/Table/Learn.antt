-- ===== src/Routes/Table/Learn.antt =====
-- What `learn` does with an announce, on every branch.
use wifipi.Struct.{Values}
use wifipi.Routes.Cold.{Extras}
use wifipi.Prelude.Int.{ℤ}
use wifipi.Prelude.Result.{and_then, Result, ok}
use wifipi.Prelude.Dict.{Distinct-set, Distinct-remove, remove, get-remove_self, get}
use wifipi.Bytes.{Bytes}
use wifipi.Prelude.{
  not, leb, ◌&&◌, ◌==◌, Option-cases, inr, ltb, inl, Bool-cases, true, Option, ◌≡◌, ℕ, ◌<◌, list_eq,
  refl, none, some,
}
use wifipi.Routes.Entry.{route_fmt, unpack_entry}
use wifipi.Routes.Entry.RoundTrip.{InRange, entry_bytes}
use wifipi.Routes.Table.{
  RouteTable, Clocks, Heard, Verdict, self, new, better, refreshed, settling, kept, buffer_cold,
  commit, answer, stronger, guarded, sharpens, learn_close, learn_worse, settle_later, is_self,
  held_hops, learn,
}
use wifipi.Routes.Table.Hot.{IsValid, put_hot_lem, put_hot-ok}

abbrev pub HeardInRange : Clocks → Heard → Type 0
HeardInRange now h = InRange h.next_hop h.hops h.rssi now.wall

abbrev pub heard_bytes : Clocks → Heard → Bytes
heard_bytes now h = entry_bytes h.next_hop h.hops h.rssi now.wall

IsValid-buffer_cold :
    (now : Clocks) (id nh : Bytes) (hops : ℕ) (rssi : Option ℤ) (x : Extras) (t : RouteTable)
    → IsValid t
    → IsValid (buffer_cold now id nh hops rssi x t)
unfolding buffer_cold
IsValid-buffer_cold now id nh hops rssi x t v = record {
  bounded = v.bounded;
  distinct = v.distinct;
  candidates = v.candidates;
}

-- The node's route is the one heard.
pub record Installed (now : Clocks) (id : Bytes) (h : Heard) (t : RouteTable) : Type 0 where
  pub installed : get t.hot id ≡ some (heard_bytes now h)
  pub no_candidate : get t.pending id ≡ none

-- `commit` on a table whose candidate for the node was dropped.
pub commit_lem :
    (now : Clocks) (id : Bytes) (h : Heard) (t : RouteTable)
    → HeardInRange now h
    → IsValid t
    → 0 < t.max_hot
    → get t.pending id ≡ none
    → let (r, t') = commit now id h t in (r ≡ ok tt) × IsValid t' × Installed now id h t'
unfolding commit buffer_cold
commit_lem now id h t r v room gone =
    let written = put_hot-ok id h.next_hop h.hops h.rssi now.wall t r in
    let (fine, valid, read, n) =
      rw written at (put_hot_lem id h.next_hop h.hops h.rssi now.wall t r v room) in
    rw (written, commit)
      (
        refl,
        IsValid-buffer_cold now id h.next_hop h.hops h.rssi h.extras _ valid,
        record { installed = read; no_candidate = gone },
      )

-- What the verdict of `learn` says of the tables.
abbrev pub Effect : Verdict → Clocks → Bytes → Heard → RouteTable → RouteTable → Type 0
Effect self now id h t t' = (is_self t id ≡ true) × (t' ≡ t)
Effect new now id h t t' = (get t.hot id ≡ none) × Installed now id h t'
Effect better now id h t t' = Installed now id h t'
Effect refreshed now id h t t' = Installed now id h t'
Effect settling now id h t t' = t'.hot ≡ t.hot
Effect kept now id h t t' = t'.hot ≡ t.hot

-- A verdict whose effect holds, on a valid table.
abbrev pub Learned : Clocks → Bytes → Heard → RouteTable → Result Verdict × RouteTable → Type 0
Learned now id h t (r, t') = (v : Verdict) × (r ≡ ok v) × IsValid t' × Effect v now id h t t'

pub dropped-IsValid :
    (id : Bytes) (t : RouteTable) → IsValid t → IsValid (record t { pending = remove id t.pending })
dropped-IsValid id t v = record {
  bounded = v.bounded;
  distinct = v.distinct;
  candidates = Distinct-remove id t.pending v.candidates;
}

module _ (now : Clocks) (id : Bytes) (h : Heard) (t : RouteTable) (r : HeardInRange now h)
    (v : IsValid t) (room : 0 < t.max_hot) where
  abbrev pub dropped : RouteTable
  dropped = record t { pending = remove id t.pending }

  pub committed :
      ((commit now id h dropped).0 ≡ ok tt)
      × IsValid (commit now id h dropped).1
      × Installed now id h (commit now id h dropped).1
  committed =
      commit_lem now id h dropped r (dropped-IsValid id t v) room (get-remove_self id t.pending)

  -- a commit that is answered with `verdict`
  answered :
      (verdict : Verdict)
      → (Installed now id h (commit now id h dropped).1
          → Effect verdict now id h t (commit now id h dropped).1)
      → Learned now id h t (answer verdict (commit now id h dropped))
  answered verdict effect =
      let (fine, valid, there) = committed in
      rw (fine, and_then) (verdict, refl, valid, effect there)

  learn_close_lem : (held : Values route_fmt) → Learned now id h t (learn_close now id h held t)
  unfolding learn_close
  learn_close_lem (old_hop, (old_hops, (old_rssi, (old_seen, end)))) =
      elim (Bool-cases (ltb h.hops old_hops)) [
        | inl less ↦ rw (less, learn_close) (answered better (λ i. i))
        | inr not_less ↦ elim (Bool-cases (h.next_hop == old_hop)) [
          | inl same ↦ rw (not_less, learn_close, same) (answered refreshed (λ i. i))
          | inr other ↦
              elim (Bool-cases (guarded now.wall old_seen && not (stronger h.rssi old_rssi))) [
                | inl keep ↦
                    rw (not_less, learn_close, other, keep)
                      (
                        kept,
                        refl,
                        IsValid-buffer_cold now id old_hop old_hops (some old_rssi) h.extras dropped
                            (dropped-IsValid id t v),
                        unfold buffer_cold in refl,
                      )
                | inr swap ↦ rw (not_less, learn_close, other, swap) (answered better (λ i. i))
              ]
        ]
      ]

  settle_later-IsValid : IsValid (settle_later now id h t) × ((settle_later now id h t).hot ≡ t.hot)
  unfolding settle_later
  settle_later-IsValid = elim (Bool-cases (sharpens h (get t.pending id))) [
    | inl better_one ↦
        rw (better_one, settle_later)
          (
            record {
              bounded = v.bounded;
              distinct = v.distinct;
              candidates = Distinct-set id _ t.pending v.candidates;
            },
            refl,
          )
    | inr no_better ↦ rw (no_better, settle_later) (v, refl)
  ]

  learn_worse_lem : (held : Values route_fmt) → Learned now id h t (learn_worse now id h held t)
  unfolding learn_worse
  learn_worse_lem (old_hop, (old_hops, (old_rssi, (old_seen, end)))) =
      elim (Bool-cases (guarded now.wall old_seen)) [
        | inl early ↦
            rw (early, learn_worse)
              (
                kept,
                refl,
                IsValid-buffer_cold now id old_hop old_hops (some old_rssi) h.extras t v,
                unfold buffer_cold in refl,
              )
        | inr late ↦
            rw (late, learn_worse)
              (
                settling,
                refl,
                IsValid-buffer_cold now id old_hop old_hops (some old_rssi) h.extras
                    (settle_later now id h t) settle_later-IsValid.0,
                unfold buffer_cold in settle_later-IsValid.1,
              )
      ]

  -- On a valid table with room for an entry, `learn` of an announce in range never fails, and does
  -- exactly one of two things: it installs the route heard, at once and with no candidate left for
  -- the node, or it leaves the hot table as it is. It keeps the table valid.
  pub learn_effect : Learned now id h t (learn now id h t)
  unfolding learn
  learn_effect = elim (Bool-cases (is_self t id)) [
    | inl mine ↦ rw (mine, learn) (self, refl, v, (mine, refl))
    | inr other ↦ elim (Option-cases (get t.hot id)) [
      | inl absent ↦ rw (other, learn, absent) (answered new (λ i. (absent, i)))
      | inr (existing, there) ↦ elim (Bool-cases (leb h.hops (held_hops (unpack_entry existing)))) [
        | inl close ↦ rw (other, learn, there, close) (learn_close_lem (unpack_entry existing))
        | inr worse ↦ rw (other, learn, there, worse) (learn_worse_lem (unpack_entry existing))
      ]
    ]
  ]
