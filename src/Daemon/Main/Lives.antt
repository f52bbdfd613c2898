-- ===== src/Daemon/Main/Lives.antt =====
-- No frame, no outage of the radio and no plain request ends the daemon.
use wifipi.Prelude.{
  subst, nat_beq, ◌≤◌, ◌&&◌, ◌+◌, ◌<◌, ◌≡◌, ◌⊎◌, ap, refl, arith, All, Bool-cases, List, Option,
  Bool, ℕ, some, none, true, false, zero, suc, ◌∷◌, [], inl, inr,
}
use wifipi.Prelude.Time.{Micros}
use wifipi.Prelude.Result.{Result, ok, err, os_error, and_then}
use wifipi.Bytes.{Bytes}
use wifipi.Identity.{Crypto}
use wifipi.Routes.Entry.{Name}
use wifipi.Node.Robust.{IsValid}
use wifipi.Node.Loop.Invariant.{IsTurn}
use wifipi.Node.Outage.{poll_until}
use wifipi.Node.Outage.Survives.{IsSocket, poll_until-Survives}
use wifipi.Node.Status.{Running}
use wifipi.Control.Server.{Connection, Server, poll}
use wifipi.Control.Server.Served.{IsPlainConnection, poll_served}
use wifipi.Routes.Cold.{ColdStore, flush}
use wifipi.Routes.Cold.Laws.{flush-eq}
use wifipi.Routes.Table.Warm
use wifipi.Daemon.Main.{
  Retry, Day, reopen, waited, go_on, after_poll, main_turn, main_from, main, shut, shut_after,
}

-- A turn that ends the wait without an exception.
abbrev pub IsOver : Retry → Type 0
IsOver r = (r.stop ≡ true) ⊎ ((r.usable ≡ ok true) × (r.opened ≡ true))

-- A wait that turn `k` ends, and whose turns before it raise nothing.
pub record IsWait (retries : ℕ → Retry) (k : ℕ) : Type 0 where
  pub over : IsOver (retries k)
  pub fine : (j : ℕ) → j < k → (b : Bool) × ((retries j).usable ≡ ok b)

reopen_over :
    (retries : ℕ → Retry) (fuel t : ℕ)
    → IsOver (retries t)
    → (b : Bool) × (reopen retries t (suc fuel) ≡ some (ok b))
unfolding reopen
reopen_over retries fuel t over = elim (Bool-cases (retries t).stop) [
  | inl stop ↦ (false, rw (reopen, stop) refl)
  | inr run ↦ elim over [
    | inl stop ↦ absurd (cc)
    | inr back ↦ (true, rw (reopen, run, back.0, back.1) refl)
  ]
]

reopen_on :
    (retries : ℕ → Retry) (fuel t : ℕ) (usable : Bool)
    → (retries t).usable ≡ ok usable
    → (b : Bool) × (reopen retries (t + 1) fuel ≡ some (ok b))
    → (b : Bool) × (reopen retries t (suc fuel) ≡ some (ok b))
unfolding reopen
reopen_on retries fuel t usable fine (b, same) = elim (Bool-cases (retries t).stop) [
  | inl stop ↦ (false, rw (reopen, stop) refl)
  | inr run ↦ elim (Bool-cases (usable && (retries t).opened)) [
    | inl back ↦ (true, rw (reopen, run, fine, back) refl)
    | inr down ↦ (b, rw (reopen, run, fine, down) same)
  ]
]

reopen_lem :
    (retries : ℕ → Retry) (fuel t k : ℕ)
    → IsWait retries k
    → t ≤ k
    → k < t + fuel
    → (b : Bool) × (reopen retries t fuel ≡ some (ok b))
reopen_lem retries zero t k w from h = absurd (omega arith)
reopen_lem retries (suc fuel) t k w from h = elim (Bool-cases (nat_beq k t)) [
  | inl now ↦ reopen_over retries fuel t (subst (λ j. IsOver (retries j)) (ground arith) w.over)
  | inr ahead ↦
      let (usable, fine) = w.fine t (ground arith) in
      reopen_on retries fuel t usable fine
        (reopen_lem retries fuel (t + 1) k w (ground arith) (omega (arith, h)))
]

-- A turn that is as it can be: what the socket returns is bytes, the clocks and random bytes are in
-- range, the requests are plain, and the wait, if there is one, is over before its fuel is, with no exception.
abbrev ArePlain : Option (List Connection) → Type 0
ArePlain none = Unit
ArePlain (some cs) = All IsPlainConnection cs

pub record IsDay (fuel : ℕ) (d : Day) : Type 0 where
  pub turn : IsTurn d.turn
  pub socket : IsSocket d.socket
  pub requests : ArePlain d.connections
  pub wait : (k : ℕ) × (k < fuel) × IsWait d.retries k

-- A store, if there is one, whose buffer is empty.
abbrev pub IsWritten : Option ColdStore → Type 0
IsWritten none = Unit
IsWritten (some c) = c.buf ≡ []

closed-IsWritten :
    (now : Micros) (cold : Option ColdStore)
    → IsWritten (elim cold [ none ↦ none | some c ↦ some (flush now c).1 ])
closed-IsWritten now none = tt
closed-IsWritten now (some c) = rw (flush-eq now c) refl

-- An answer on a valid node.
abbrev Lives : {A : Type 0} → Option (Result A × Server) → Type 0
Lives {A = A} out = (a : A) × (s : Server) × (out ≡ some (ok a, s)) × IsValid s.node

module _ (crypto : Crypto) (decode : Bytes → Name) (uniform : Micros → Micros → Micros)
    (own : Running) (fuel : ℕ) where
  served-Lives :
      (connections : Option (List Connection)) (s : Server)
      → ArePlain connections
      → IsValid s.node
      → Lives {A = Bool}
          (some (and_then (poll crypto own connections s) (λ served s1. (ok true, s1))))
  unfolding poll
  served-Lives none s a v = (true, s, refl, v)
  served-Lives (some cs) s a v =
      let (s', same, closed, valid, told) = poll_served crypto own cs s a v in
      (
        true,
        s',
        ap (λ (p : Result ℕ × Server). some (and_then {B = Bool} p (λ served s1. (ok true, s1))))
            same,
        valid,
      )

  after_poll-Lives :
      (d : Day) (r : Result (Unit {0})) (s : Server)
      → IsDay fuel d
      → (r ≡ err os_error) ⊎ ((u : Unit) × (r ≡ ok u))
      → IsValid s.node
      → Lives (after_poll crypto decode uniform own fuel d (r, s))
  after_poll-Lives d r s w (inl gone) v =
      let (k, soon, over) = w.wait in
      let (b, same) = reopen_lem d.retries fuel 0 k over (omega arith) (omega (arith, soon)) in
      (b, s, rw gone (ap (λ o. waited o s) same), v)
  after_poll-Lives d r s w (inr (u, fine)) v =
      let (b, s1, same, valid) = served-Lives d.connections s w.requests v in
      (b, s1, rw fine same, valid)

  main_turn-Lives :
      (d : Day) (s : Server)
      → IsDay fuel d
      → IsValid s.node
      → Lives (main_turn crypto decode uniform own fuel d s)
  unfolding main_turn
  main_turn-Lives d s w v =
      let p = poll_until crypto decode uniform d.turn d.socket s.node in
      let (o, valid) =
        poll_until-Survives crypto decode uniform d.turn w.turn d.socket s.node w.socket v in
      after_poll-Lives d p.0 (record s { node = p.1 }) w o valid

  go_on-Lives :
      (out : Option (Result Bool × Server)) (rest : Server → Option (Result (Unit {0}) × Server))
      → Lives out
      → ((s : Server) → IsValid s.node → Lives (rest s))
      → Lives (go_on out rest)
  go_on-Lives out rest (true, s, same, v) next = rw same (next s v)
  go_on-Lives out rest (false, s, same, v) next = (tt, s, ap (λ o. go_on o rest) same, v)

  main_from-Lives :
      (ds : List Day) (s : Server)
      → All (IsDay fuel) ds
      → IsValid s.node
      → Lives (main_from crypto decode uniform own fuel ds s)
  unfolding main_from
  main_from-Lives [] s a v = (tt, s, refl, v)
  main_from-Lives (d ∷ ds) s a v =
      go_on-Lives (main_turn crypto decode uniform own fuel d s) _ (main_turn-Lives d s a.0 v)
        (λ s1 v1. main_from-Lives ds s1 a.1 v1)

  -- If in every turn what the socket returns is bytes, the random bytes and the times are in range, the
  -- requests are blank, unreadable, no JSON, or objects whose limit int() reads or refuses with a ValueError,
  -- and the wait for a lost radio is over before its fuel is, with no exception of the adapter's checks
  -- before, then the daemon, started on a valid node, runs to its stop with no exception; the node is
  -- valid then, and nothing is left unwritten.
  pub main_lem :
      (ds : List Day) (now : Micros) (s : Server)
      → All (IsDay fuel) ds
      → IsValid s.node
      → (s' : Server) × (main crypto decode uniform own fuel ds now s ≡ some (ok tt, s'))
        × IsValid s'.node
        × IsWritten s'.node.routes.cold
  unfolding main Warm.close
  main_lem ds now s a v =
      let (u, s1, same, w) = main_from-Lives ds s a v in
      (
        shut now s1,
        ap (shut_after now) same,
        record {
          flooder = w.flooder;
          routes = record {
            bounded = w.routes.bounded;
            distinct = w.routes.distinct;
            candidates = w.routes.candidates;
          };
          room = w.room;
          hops_fit = w.hops_fit;
          id_length = w.id_length;
          relays = w.relays;
          candidates = w.candidates;
        },
        closed-IsWritten now s1.node.routes.cold,
      )
