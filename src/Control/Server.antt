-- ===== src/Control/Server.antt =====
-- `ControlServer.poll`: the requests that wait on the control socket, and what becomes of each.
pub mod Served
pub mod Stopped
mod Tests
use wifipi.Text.{codes}
use wifipi.Prelude.Time.{Micros}
use wifipi.Identity.{Crypto}
use wifipi.Prelude.{
  ◌==◌, ◌++◌, if◌then◌else◌, Option, Bool, ◌+◌, ℕ, List, some, none, true, false, ◌∷◌, [], list_eq,
}
use wifipi.Prelude.Int.{ℤ, pos}
use wifipi.Prelude.Result.{Error, Result, ok, err, value_error, os_error, attribute_error, and_then}
use wifipi.Control.{RoutesReply, FloodReply, AnnounceReply, cmd_routes, cmd_flood, cmd_announce}
use wifipi.Control.Json.{
  Json, text, int, bool, object, Members, no_member, get_or_else, is_true, int_of,
}
use wifipi.Node.Status.{Running, Status, status}
use wifipi.Node.Loop.{Draw}
use wifipi.Node.{Node}

-- What is sent back; an error text is told by what it shows.
pub data Reply : Type 0 where
  status_reply : Status → Reply
  routes_reply : RoutesReply → Reply
  flood_reply : FloodReply → Reply
  announce_reply : AnnounceReply → Reply
  unknown_command : Json → Reply
  failed : Error → Reply

-- What a request reads while it is handled: the clocks, one reading for each time, the random bytes of an
-- announce, and how many packets the radio takes.
pub record World : Type 0 where
  pub wall : ℕ → Micros
  pub mono : ℕ → Micros
  pub draw : Draw
  pub radio : ℕ

-- `_cmd_routes`, behind `int(req.get("limit", 40))`
abbrev pub answer_routes : World → Json → Result ℤ → Node → Result Reply × Node
answer_routes w want (err e) n = (err e, n)
answer_routes w want (ok limit) n =
    (ok (routes_reply (cmd_routes w.wall limit (is_true want) n.routes)), n)

module _ (crypto : Crypto) (own : Running) where
  -- the method that `getattr` finds for a command
  unfoldable pub command : World → Json → Members → Node → Result Reply × Node
  command w (text s) req n =
      if s == codes "status"
      then (ok (status_reply (status own (w.wall 0) (w.mono 0) n)), n)
      else if s == codes "routes"
      then answer_routes w (get_or_else (codes "neighbours") (bool false) req)
          (int_of (get_or_else (codes "limit") (int (pos 40)) req)) n
      else if s == codes "flood"
      then (ok (flood_reply (cmd_flood w.mono n.flooder)), n)
      else if s == codes "announce"
      then and_then (cmd_announce crypto w.radio w.draw n) (λ a n'. (ok (announce_reply a), n'))
      else (ok (unknown_command (text s)), n)
  command w cmd req n = (ok (unknown_command cmd), n)

  -- `handle`: what is no object has no `get`
  unfoldable pub handle : World → Json → Node → Result Reply × Node
  handle w (object req) n = command w (get_or_else (codes "cmd") (text (codes "status")) req) req n
  handle w req n = (err attribute_error, n)

-- A connection: what the receiving, decoding and parsing of its text gives, none if it is blank, and
-- whether the socket takes a first and a second answer.
pub record Connection : Type 0 where
  pub incoming : Result (Option Json)
  pub first_taken : Bool
  pub second_taken : Bool
  pub world : World

-- The node, the answers that were sent, and how many connections were closed.
pub record Server : Type 0 where
  pub node : Node
  pub answers : List Reply
  pub closed : ℕ

-- `except (OSError, ValueError)`
abbrev pub is_caught : Error → Bool
is_caught os_error = true
is_caught value_error = true
is_caught _ = false

-- `conn.sendall` of an answer that the socket takes or does not
abbrev pub sendall : Bool → Reply → Server → Result (Unit {0}) × Server
sendall true r s = (ok tt, record s { answers = s.answers ++ r ∷ [] })
sendall false r s = (err os_error, s)

-- the `except` clause; the second `OSError` is passed over
abbrev pub rescue : Bool → Result (Unit {0}) × Server → Result (Unit {0}) × Server
rescue second (ok u, s) = (ok u, s)
rescue second (err e, s) =
    if is_caught e then (ok tt, (sendall second (failed e) s).1) else (err e, s)

-- the `finally` clause
abbrev pub close_after : Result (Unit {0}) × Server → Result (Unit {0}) × Server
close_after (r, s) = (r, record s { closed = s.closed + 1 })

-- `{}` for a blank text
abbrev pub or_empty : Option Json → Json
or_empty none = object no_member
or_empty (some req) = req

module _ (crypto : Crypto) (own : Running) where
  -- the `try` clause
  unfoldable pub answer_one : Connection → Server → Result (Unit {0}) × Server
  answer_one c s =
      and_then (c.incoming, s)
        (λ req s1.
          let (r, n) = handle crypto own c.world (or_empty req) s1.node in
          and_then (r, record s1 { node = n }) (λ reply s2. sendall c.first_taken reply s2))

  unfoldable pub serve : Connection → Server → Result (Unit {0}) × Server
  serve c s = close_after (rescue c.second_taken (answer_one c s))

  -- the loop of `poll`, with `served`, over the connections that `accept` gives before it raises
  unfoldable pub serve_all : List Connection → ℕ → Server → Result ℕ × Server
  serve_all [] served s = (ok served, s)
  serve_all (c ∷ cs) served s = and_then (serve c s) (λ _ s1. serve_all cs (served + 1) s1)

  -- `poll`, with no socket if there is none to listen on
  unfoldable pub poll : Option (List Connection) → Server → Result ℕ × Server
  poll none s = (ok 0, s)
  poll (some cs) s = serve_all cs 0 s
