-- ===== src/Node/Life/Reached.antt =====
-- No node that a start leads to breaks.
use wifipi.Routes.Entry.{Name}
use wifipi.Prelude.Time.{Micros}
use wifipi.Identity.{Crypto, Identity}
use wifipi.Bytes.{Bytes}
use wifipi.Prelude.{
  length-take, arith, ◌≤◌, refl, ◌<◌, length, ◌≡◌, ℕ, Option, ◌∷◌, [], none, some, list_eq, pair_eq,
}
use wifipi.Prelude.Result.{Result, ok}
use wifipi.Prelude.Dict.{Dict, Distinct}
use wifipi.Routes.Cold.{ColdStore, Row}
use wifipi.Routes.Table
use wifipi.Routes.Table.Warm.{warm}
use wifipi.Routes.Table.Warm.Fill.{IsNewestFirst, warmed, length-warmed}
use wifipi.Routes.Table.Warm.Newest.{
  AllRowsFit, IsFresh, shown, distinct_shown, get-warmed_absent, warm_lem,
}
use wifipi.Node
use wifipi.Node.{Node}
use wifipi.Node.Start.{init-IsValid}
use wifipi.Node.Robust.{IsValid}
use wifipi.Node.Life.{boot, Step, turn, announce, Reach, here, next}
use wifipi.Node.Outage.{Socket, poll_until}
use wifipi.Node.Outage.Survives.{
  IsSocket, Survives, poll_until-Survives, send_announce_until-Survives,
}
use wifipi.Node.Loop.{Turn}
use wifipi.Node.Loop.Invariant.{IsTurn}

-- A store whose rows stand once each and fit an entry of the hot table.
abbrev pub IsStored : Option ColdStore → Type 0
IsStored none = Unit
IsStored (some c) = Distinct c.rows × AllRowsFit c.rows

Distinct-warmed : (rows : Dict Bytes Row) → Distinct rows → Distinct (warmed rows)
Distinct-warmed [] u = tt
Distinct-warmed ((id, r) ∷ rows) u = (get-warmed_absent id rows u.0, Distinct-warmed rows u.1)

-- A start that loads its table.
abbrev pub IsStarted : Result ℕ × Node → Type 0
IsStarted (r, n) = ((k : ℕ) × (r ≡ ok k)) × IsValid n

module _ (newest_first : Dict Bytes Row → Dict Bytes Row) (o : IsNewestFirst newest_first)
    (i : Identity) (announce_interval : Micros) (name : Bytes) (hop_limit : ℕ) (now : Micros)
    (id_length : length i.node_id ≡ 16) (hops_fit : hop_limit < 65536) where
  started :
      (n : Node) (c : ColdStore)
      → IsValid n
      → IsFresh n.routes c
      → let (r, t) = warm newest_first none n.routes in IsStarted (r, record n { routes = t })
  started n c v f =
      let rows = shown newest_first o n.routes c f in
      let u = Distinct-warmed rows (distinct_shown newest_first o n.routes c f) in
      let few : length (warmed rows) ≤ n.routes.max_hot =
        omega (arith, length-warmed rows, length-take n.routes.max_hot (newest_first c.rows)) in
      rw (warm_lem newest_first o n.routes c f) (
        (length rows, refl),
        record {
          flooder = v.flooder;
          routes = record { bounded = few; distinct = u; candidates = v.routes.candidates };
          room = v.room;
          hops_fit = v.hops_fit;
          id_length = v.id_length;
          relays = v.relays;
          candidates = v.candidates;
        },
      )

  boot-IsStarted :
      (cold : Option ColdStore)
      → IsStored cold
      → IsStarted (boot newest_first i announce_interval name cold hop_limit now)
  unfolding boot
  boot-IsStarted none s =
      unfold warm Table.init Node.init in
      ((0, refl), init-IsValid i announce_interval name none hop_limit now id_length hops_fit)
  boot-IsStarted (some c) s =
      started (Node.init i announce_interval name (some c) hop_limit now) c
        (init-IsValid i announce_interval name (some c) hop_limit now id_length hops_fit)
        (unfold Node.init Table.init in
          record { store = refl; empty = refl; keyed = s.0; fit = s.1 })

  module _ (crypto : Crypto) (decode : Bytes → Name) (uniform : Micros → Micros → Micros) where
    Step-IsValid : {n m : Node} → Step crypto decode uniform n m → IsValid n → IsValid m
    Step-IsValid (turn t s n w a) v = (poll_until-Survives crypto decode uniform t w s n a v).1
    Step-IsValid (announce k d n w) v = (send_announce_until-Survives crypto k d n v w).1

    Reach-IsValid : {n m : Node} → Reach crypto decode uniform n m → IsValid n → IsValid m
    Reach-IsValid here v = v
    Reach-IsValid (next r s) v = Step-IsValid s (Reach-IsValid r v)

    -- A start succeeds, if the node id has 16 bytes, the hop limit fits 16 bits and each row of the
    -- store fits an entry. After it, whatever turns, announces and failures of the radio there are, the
    -- node is valid, and its next turn raises nothing but the OSError of the socket.
    pub boot-Reach :
        (cold : Option ColdStore) (n : Node) (t : Turn) (s : Socket)
        → IsStored cold
        → Reach crypto decode uniform
            (boot newest_first i announce_interval name cold hop_limit now).1
            n
        → IsTurn t
        → IsSocket s
        → ((k : ℕ) × ((boot newest_first i announce_interval name cold hop_limit now).0 ≡ ok k))
          × IsValid n
          × Survives (poll_until crypto decode uniform t s n)
    boot-Reach cold n t s stored reached is_turn is_socket =
        let (fine, v) = boot-IsStarted cold stored in
        let w = Reach-IsValid reached v in
        (fine, w, poll_until-Survives crypto decode uniform t is_turn s n is_socket w)
