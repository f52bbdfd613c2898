-- ===== src/Routes/Table/Committed.antt =====
-- What `_commit` leaves in a hot table that has room.
use wifipi.Prelude.{
  ◌==◌, ◌+◌, ◌<◌, ◌≤◌, ◌≡◌, [], ◌∷◌, ap, ◌∙◌, refl, arith, length, length-append, list_eq, some,
  if◌then◌else◌, Bool-cases, inl, inr,
}
use wifipi.Bytes.{Bytes}
use wifipi.Prelude.Dict.{
  get, remove, evict_of_length-le, get-append, get-remove, get-remove_self, length-remove-le,
}
use wifipi.Routes.Table.{RouteTable, Clocks, Heard, commit, buffer_cold}
use wifipi.Routes.Table.Hot.{inserted, put_hot-ok}
use wifipi.Routes.Table.Learn.{HeardInRange, heard_bytes}

module _ (now : Clocks) (id : Bytes) (h : Heard) (t : RouteTable) (r : HeardInRange now h)
    (room : length t.hot < t.max_hot) where
  hot-commit : (commit now id h t).1.hot ≡ inserted t id (heard_bytes now h)
  unfolding commit buffer_cold
  hot-commit =
      let few : length (inserted t id (heard_bytes now h)) ≤ t.max_hot = omega (
        arith,
        length-append (remove id t.hot) ((id, heard_bytes now h) ∷ []),
        length-remove-le id t.hot,
        room,
      ) in
      rw (put_hot-ok id h.next_hop h.hops h.rssi now.wall t r, commit)
        (evict_of_length-le t.max_hot (inserted t id (heard_bytes now h)) few)

  pub get-commit :
      (j : Bytes)
      → get (commit now id h t).1.hot j
        ≡ (if id == j then some (heard_bytes now h) else get t.hot j)
  get-commit j = rw hot-commit (
      get-append id j (heard_bytes now h) (remove id t.hot) (get-remove_self id t.hot)
      ∙ elim (Bool-cases (id == j)) [
        | inl same ↦ rw same refl
        | inr other ↦ rw other (get-remove id j t.hot ∙ rw other refl)
      ])

  pub length-commit : length (commit now id h t).1.hot ≤ length t.hot + 1
  length-commit = omega (
    arith,
    ap length hot-commit,
    length-append (remove id t.hot) ((id, heard_bytes now h) ∷ []),
    length-remove-le id t.hot,
  )
