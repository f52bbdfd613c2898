-- ===== src/Routes/Table/Warm/Stable.antt =====
-- A stable sort by the last hearing is an order that sqlite may give.
use wifipi.Prelude.{eq_iff, Bool-cases, ◌∙◌, refl, ◌≡◌, arith, ◌∷◌, [], none, inl, inr, list_eq}
use wifipi.Prelude.Dict.{Dict, get, Distinct}
use wifipi.Prelude.Sort.{sort, insert, sort-IsSorted}
use wifipi.Bytes.{Bytes}
use wifipi.Routes.Cold.{Row}
use wifipi.Routes.Table.Warm.Fill.{no_older, IsNewestFirst}

-- a stable sort of the rows
abbrev pub newest : Dict Bytes Row → Dict Bytes Row
newest = sort no_older

get-insert :
    (id j : Bytes) (r : Row) (d : Dict Bytes Row)
    → get d id ≡ none
    → get (insert no_older (id, r) d) j ≡ get ((id, r) ∷ d) j
unfolding get insert
get-insert id j r [] h = refl
get-insert id j r ((k, s) ∷ d) h = elim (Bool-cases (no_older (id, r) (k, s))) [
  | inl first ↦ rw first refl
  | inr later ↦ rw later (ground (arith, eq_iff id j, eq_iff k j, eq_iff k id, get-insert id j r d))
]

Distinct-insert :
    (id : Bytes) (r : Row) (d : Dict Bytes Row)
    → get d id ≡ none
    → Distinct d
    → Distinct (insert no_older (id, r) d)
unfolding get insert
Distinct-insert id r [] h u = (refl, tt)
Distinct-insert id r ((k, s) ∷ d) h u = elim (Bool-cases (no_older (id, r) (k, s))) [
  | inl first ↦ rw first (h, u)
  | inr later ↦
      rw later
        (ground (arith, eq_iff k id, eq_iff id k, get-insert id k r d, Distinct-insert id r d))
]

newest_rows :
    (d : Dict Bytes Row)
    → Distinct d
    → Distinct (newest d) × ((id : Bytes) → get (newest d) id ≡ get d id)
unfolding sort get
newest_rows [] u = (tt, λ id. refl)
newest_rows ((k, s) ∷ d) u =
    let (distinct, same) = newest_rows d u.1 in
    let absent : get (newest d) k ≡ none = same k ∙ u.0 in
    (
      Distinct-insert k s (newest d) absent distinct,
      λ id. get-insert k id s (newest d) absent ∙ ground (arith, same id),
    )

pub newest-IsNewestFirst : IsNewestFirst newest
newest-IsNewestFirst = record {
  sorted = sort-IsSorted no_older (λ x y h. ground arith) (λ x y z h k. ground arith);
  distinct = λ d u. (newest_rows d u).0;
  rows = λ d id u. (newest_rows d u).1 id;
}
