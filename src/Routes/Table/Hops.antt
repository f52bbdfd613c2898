-- ===== src/Routes/Table/Hops.antt =====
-- `learn` against the hop counts: shorter routes win at once, longer ones have to wait.
use wifipi.Prelude.Result.{and_then, ok}
use wifipi.Prelude.Dict.{get-set_self, get}
use wifipi.Struct.{Values}
use wifipi.Bytes.{Bytes}
use wifipi.Prelude.{
  true, ℕ, Option, Option-cases, inr, leb→le, lt→ltb, inl, ap, gt→leb, leb, le→leb, arith,
  if◌then◌else◌, Bool-cases, ◌≤◌, false, ◌<◌, ◌≡◌, list_eq, refl, none, some,
}
use wifipi.Routes.Entry.{stored_rssi, route_fmt, unpack_entry}
use wifipi.Routes.Entry.RoundTrip.{unpack_entry-entry_bytes}
use wifipi.Routes.Table.{
  RouteTable, Candidate, Clocks, Heard, Verdict, self, new, better, refreshed, settling, kept,
  buffer_cold, answer, guarded, sharpens, deadline, learn_close, learn_worse, settle_later, is_self,
  held_hops, learn,
}
use wifipi.Routes.Table.Hot.{IsValid}
use wifipi.Routes.Table.Learn.{
  HeardInRange, heard_bytes, Installed, Effect, committed, learn_effect,
}

-- At most the hops of the candidate, if there is one.
abbrev pub AtMost : ℕ → Option Candidate → Type 0
AtMost hops none = Unit
AtMost hops (some c) = hops ≤ c.hops

sharpens-AtMost :
    (h : Heard) (held : Option Candidate) → sharpens h held ≡ true → AtMost h.hops held
sharpens-AtMost h none s = tt
sharpens-AtMost h (some c) s = ground arith

settle_later-candidate :
    (now : Clocks) (id : Bytes) (h : Heard) (t : RouteTable)
    → (c : Candidate) × (get (settle_later now id h t).pending id ≡ some c)
      × (c.hops ≤ h.hops)
      × AtMost c.hops (get t.pending id)
      × (c.commit_at ≡ deadline now.wall (get t.pending id))
unfolding settle_later
settle_later-candidate now id h t =
    let fresh : Candidate = record {
      commit_at = deadline now.wall (get t.pending id);
      next_hop = h.next_hop;
      hops = h.hops;
      rssi = stored_rssi h.rssi;
    } in
    elim (Bool-cases (sharpens h (get t.pending id))) [
      | inl take_it ↦ (
        fresh,
        rw take_it (get-set_self id fresh t.pending),
        omega arith,
        sharpens-AtMost h (get t.pending id) take_it,
        refl,
      )
      | inr leave_it ↦ elim (Option-cases (get t.pending id)) [
        | inl absent ↦ absurd (ground arith)
        | inr (c, held) ↦ (c, rw leave_it held, ground arith, rw held (omega arith), rw held refl)
      ]
    ]

module _ (now : Clocks) (id : Bytes) (h : Heard) (t : RouteTable) (e : Bytes) where
  pub learn_known :
      is_self t id ≡ false
      → get t.hot id ≡ some e
      → learn now id h t ≡ (
          if leb h.hops (held_hops (unpack_entry e))
          then learn_close now id h (unpack_entry e) t
          else learn_worse now id h (unpack_entry e) t)
  unfolding learn
  learn_known other there = rw (other, learn, there)

  hot-learn_worse : (held : Values route_fmt) → (learn_worse now id h held t).1.hot ≡ t.hot
  unfolding learn_worse settle_later buffer_cold
  hot-learn_worse (old_hop, (old_hops, (old_rssi, (old_seen, end)))) = ground arith

  hops_of_Effect :
      (v : Verdict) (t' : RouteTable)
      → HeardInRange now h
      → Effect v now id h t t'
      → get t.hot id ≡ some e
      → h.hops ≤ held_hops (unpack_entry e)
      → (e' : Bytes) × (get t'.hot id ≡ some e')
        × (held_hops (unpack_entry e') ≤ held_hops (unpack_entry e))
  hops_of_Effect v t' r effect there close = go v effect
    where
      took :
          Installed now id h t'
          → (e' : Bytes) × (get t'.hot id ≡ some e')
            × (held_hops (unpack_entry e') ≤ held_hops (unpack_entry e))
      took i = (
        heard_bytes now h,
        i.installed,
        rw (unpack_entry-entry_bytes h.next_hop h.hops h.rssi now.wall r) close,
      )

      same :
          t'.hot ≡ t.hot
          → (e' : Bytes) × (get t'.hot id ≡ some e')
            × (held_hops (unpack_entry e') ≤ held_hops (unpack_entry e))
      same q = (e, rw q there, omega arith)

      go :
          (v : Verdict)
          → Effect v now id h t t'
          → (e' : Bytes) × (get t'.hot id ≡ some e')
            × (held_hops (unpack_entry e') ≤ held_hops (unpack_entry e))
      go self (mine, q) = same (ap (λ (x : RouteTable). x.hot) q)
      go new (absent, i) = took i
      go better i = took i
      go refreshed i = took i
      go settling q = same q
      go kept q = same q

  -- `learn` never puts a longer route in the place of a held one: the hop count of a node in the
  -- hot table does not grow, whatever is heard in range, on a valid table with room for an entry.
  -- Only a settle replaces a route by a longer one.
  pub learn-hops_le :
      HeardInRange now h
      → IsValid t
      → 0 < t.max_hot
      → get t.hot id ≡ some e
      → (e' : Bytes) × (get (learn now id h t).1.hot id ≡ some e')
        × (held_hops (unpack_entry e') ≤ held_hops (unpack_entry e))
  learn-hops_le r v room there =
      let (verdict, answer, valid, effect) = learn_effect now id h t r v room in
      elim (Bool-cases (leb h.hops (held_hops (unpack_entry e)))) [
        | inl close ↦
            hops_of_Effect verdict (learn now id h t).1 r effect there
              (leb→le h.hops (held_hops (unpack_entry e)) close)
        | inr worse ↦ elim (Bool-cases (is_self t id)) [
          | inl mine ↦ (e, unfold learn in rw (mine, learn) there, omega arith)
          | inr other ↦ (e, rw (learn_known other there, worse, hot-learn_worse) there, omega arith)
        ]
      ]

  -- A copy in range with fewer hops than the held route wins at once, whatever its signal and
  -- neighbour, on a valid table with room for an entry.
  pub learn_shorter :
      HeardInRange now h
      → IsValid t
      → 0 < t.max_hot
      → is_self t id ≡ false
      → get t.hot id ≡ some e
      → h.hops < held_hops (unpack_entry e)
      → ((learn now id h t).0 ≡ ok better) × Installed now id h (learn now id h t).1
  unfolding learn_close
  learn_shorter r v room other there less =
      let (fine, valid, there') = committed now id h t r v room in
      let close = le→leb h.hops (held_hops (unpack_entry e)) (omega arith) in
      rw
        (
          learn_known other there,
          close,
          lt→ltb h.hops (held_hops (unpack_entry e)) less,
          learn_close,
        )
        (rw (fine, and_then) (refl, there'))

  -- A longer copy outside the guard is answered `settling`: the held route stays in use, the
  -- candidate that waits has at most the hops of this copy and of the candidate before it, and the
  -- wait that a first copy began is not prolonged.
  pub learn_settling :
      is_self t id ≡ false
      → get t.hot id ≡ some e
      → held_hops (unpack_entry e) < h.hops
      → guarded now.wall (unpack_entry e).1.1.1.0 ≡ false
      → ((learn now id h t).0 ≡ ok settling)
        × ((learn now id h t).1.hot ≡ t.hot)
        × ((c : Candidate) × (get (learn now id h t).1.pending id ≡ some c)
            × (c.hops ≤ h.hops)
            × AtMost c.hops (get t.pending id)
            × (c.commit_at ≡ deadline now.wall (get t.pending id)))
  unfolding learn_worse
  learn_settling other there more late =
      let worse = gt→leb h.hops (held_hops (unpack_entry e)) more in
      rw (learn_known other there, worse, late, learn_worse)
        (
          refl,
          unfold settle_later buffer_cold in ground arith,
          unfold buffer_cold in settle_later-candidate now id h t,
        )

-- An announce in range of a node that is not held is installed.
pub learn_new :
    (now : Clocks) (id : Bytes) (h : Heard) (t : RouteTable)
    → HeardInRange now h
    → IsValid t
    → 0 < t.max_hot
    → is_self t id ≡ false
    → get t.hot id ≡ none
    → Installed now id h (learn now id h t).1
unfolding learn
learn_new now id h t r v room other absent =
    let (fine, valid, there) = committed now id h t r v room in
    rw (other, learn, absent, fine, and_then) there
