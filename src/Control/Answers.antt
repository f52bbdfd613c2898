-- ===== src/Control/Answers.antt =====
-- What the control socket answers.
use wifipi.Node.Outage.{send_announce_until}
use wifipi.Frame.{from_bytes}
use wifipi.Prelude.Result.{and_then, ok}
use wifipi.Prelude.Time.{Micros}
use wifipi.Bytes.{Bytes}
use wifipi.Identity.{Crypto}
use Prim.Native.Nat.{min, max}
use wifipi.Prelude.Sort.{filter}
use wifipi.Prelude.{
  inr, inl, length-take, [], Bool-cases, ◌∙◌, arith, ◌∷◌, ◌++◌, suc, refl, ◌≤◌, ◌+◌, ◌-◌, ap, ◌&&◌,
  length, false, take, if◌then◌else◌, ◌≡◌, true, not, Bool, List, ℕ, list_eq,
}
use wifipi.Prelude.Int.{ℤ, pos, leb_ℤ, pos_part}
use wifipi.Routes.Table.Listing.{listing, neighbours}
use wifipi.Routes.Entry.{Route, is_neighbour}
use wifipi.Routes.Table.{RouteTable}
use wifipi.Control.{hex, RouteRow, route_row, collect, capped, cmd_routes, cmd_announce}
use wifipi.Node.{Node}
use wifipi.Node.Robust.{IsValid}
use wifipi.Node.Loop.{Draw}
use wifipi.Node.Loop.Announce.{
  IsDraw, announce_packet, announced, announce_packet-IsValid, send_announce_lem,
}
use wifipi.Frame.Wire.{wire_bytes, to_bytes-IsValid, from_bytes-to_bytes}

-- the items of these routes
unfoldable pub rows : (ℕ → Micros) → ℕ → List Route → List RouteRow
rows clock n [] = []
rows clock n (r ∷ rs) = route_row (clock n) r ∷ rows clock (n + 1) rs

length-rows : (clock : ℕ → Micros) (n : ℕ) (rs : List Route) → length (rows clock n rs) ≡ length rs
unfolding rows
length-rows clock n [] = refl
length-rows clock n (r ∷ rs) = ap suc (length-rows clock (n + 1) rs)

abbrev wanted : Bool → Route → Bool
wanted want r = not (want && not (is_neighbour r))

collect-rows :
    (clock : ℕ → Micros) (want : Bool) (limit : ℤ) (n j : ℕ) (rs : List Route)
    → j ≡ pos_part limit - (n + 1)
    → collect clock want limit n rs ≡ rows clock n (take (suc j) (filter (wanted want) rs))
unfolding collect rows filter
collect-rows clock want limit n j [] h = refl
collect-rows clock want limit n j (r ∷ rs) h = elim (Bool-cases (want && not (is_neighbour r))) [
  | inl skip ↦ rw skip (collect-rows clock want limit n j rs h)
  | inr keep ↦ elim (Bool-cases (leb_ℤ limit (pos (n + 1)))) [
    | inl last ↦ let one : j ≡ 0 = ground arith in rw (keep, last, one) refl
    | inr more ↦
        let next : j ≡ suc (pos_part limit - (n + 2)) = ground arith in
        rw (keep, more, next)
          (ap (◌∷◌ (route_row (clock n) r))
            (collect-rows clock want limit (n + 1) (pos_part limit - (n + 2)) rs (omega arith)))
  ]
]

-- the routes that a request is about
abbrev pub asked : Bool → RouteTable → List Route
asked want t = if want then neighbours t else listing t

not-not : (b : Bool) → not (not b) ≡ b
not-not true = refl
not-not false = refl

filter_all : (l : List Route) → filter (λ r. true) l ≡ l
unfolding filter
filter_all [] = refl
filter_all (r ∷ l) = ap (◌∷◌ r) (filter_all l)

filter-wanted : (want : Bool) (t : RouteTable) → filter (wanted want) (listing t) ≡ asked want t
unfolding neighbours
filter-wanted true t = ap (λ p. filter p (listing t)) (λ i r. not-not (is_neighbour r) i)
filter-wanted false t = filter_all (listing t)

-- The answer to routes lists the first routes of the listing, or of the neighbours in it, as many as
-- the limit says, but at least one if there is one, and at most 500.
pub cmd_routes_lem :
    (clock : ℕ → Micros) (limit : ℤ) (want_neighbours : Bool) (t : RouteTable)
    → let out = (cmd_routes clock limit want_neighbours t).routes in
      (out ≡ rows clock 0 (take (max 1 (min (pos_part limit) 500)) (asked want_neighbours t)))
      × (length out ≤ 500)
unfolding cmd_routes
cmd_routes_lem clock limit want t =
    let cap : suc (pos_part (capped limit) - 1) ≡ max 1 (min (pos_part limit) 500) = ground arith in
    let shown =
      collect-rows clock want (capped limit) 0 (pos_part (capped limit) - 1) (listing t)
        (omega arith)
      ∙ ap (λ l. rows clock 0 (take (suc (pos_part (capped limit) - 1)) l)) (filter-wanted want t)
      ∙ ap (λ n. rows clock 0 (take n (asked want t))) cap in
    (
      shown,
      omega (
        arith,
        ap length shown,
        length-rows clock 0 (take (max 1 (min (pos_part limit) 500)) (asked want t)),
        length-take (max 1 (min (pos_part limit) 500)) (asked want t),
      ),
    )

-- The answer to announce of a valid node, with 4 random bytes for the packet id and a radio that takes
-- the packet, gives the id and the length of the packet that was put on the air, which reads back as
-- the announce.
pub cmd_announce_lem :
    (crypto : Crypto) (k : ℕ) (d : Draw) (n : Node)
    → IsValid n
    → IsDraw d
    → (bs : Bytes) × (cmd_announce crypto (suc k) d n ≡ (
      ok (record { sent = true; packet_id = hex d.packet_id; size = length bs }),
      announced crypto d n,
    ))
      × ((announced crypto d n).on_air ≡ n.on_air ++ bs ∷ [])
      × (from_bytes bs ≡ ok (announce_packet crypto d n))
unfolding cmd_announce send_announce_until
cmd_announce_lem crypto k d n v w =
    let p = announce_packet crypto d n in
    let valid = announce_packet-IsValid crypto d n v w in
    (
      wire_bytes p,
      rw (cmd_announce, send_announce_lem crypto d n v w, and_then, to_bytes-IsValid p valid) refl,
      refl,
      rw (to_bytes-IsValid p valid) at (from_bytes-to_bytes p valid),
    )
