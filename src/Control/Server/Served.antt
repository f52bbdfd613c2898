-- ===== src/Control/Server/Served.antt =====
-- Which requests are answered.
use wifipi.Text.{codes}
use mathlib.Core.List.{append-nil, append_assoc}
use wifipi.Identity.{Crypto}
use wifipi.Prelude.{
  ap₂, if◌then◌else◌, sym, ◌∙◌, arith, ap, length, ◌++◌, ◌==◌, All, List, ◌+◌, Bool-cases, false,
  inl, inr, ℕ, refl, Option, ◌≡◌, Bool, true, ◌∷◌, [], zero, suc, some, none, list_eq, pair_eq,
}
use wifipi.Prelude.Int.{ℤ, pos}
use wifipi.Prelude.Result.{Error, Result, ok, err, os_error, and_then}
use wifipi.Control.{AnnounceReply, cmd_announce}
use wifipi.Control.Answers.{cmd_announce_lem}
use wifipi.Control.Json.{
  no_member, Json, Members, null, bool, int, float, text, array, object, get_or_else, int_of,
}
use wifipi.Control.Server.{
  failed, or_empty, announce_reply, answer_routes, Reply, World, command, handle, Connection,
  Server, is_caught, sendall, rescue, close_after, answer_one, serve, serve_all, poll,
}
use wifipi.Node.{Node}
use wifipi.Node.Robust.{IsValid}
use wifipi.Node.Status.{Running}
use wifipi.Node.Loop.{Draw}
use wifipi.Node.Loop.Announce.{
  IsDraw, announce_packet-IsValid, announce_packet, made, send_announce_lem, send_announce-IsSafe,
  added-IsValid,
}
use wifipi.Node.Outage.{send_announce_until}
use wifipi.Node.Outage.Survives.{refused_lem}
use wifipi.Flood.Seen
use wifipi.Frame.{key}

-- An answer, or an exception that `poll` catches.
abbrev pub is_answered : {A : Type 0} → Result A → Bool
is_answered (ok a) = true
is_answered (err e) = is_caught e

-- A request that is an object, and whose limit, if it has one, `int` reads or refuses with a `ValueError`.
abbrev pub IsPlain : Json → Type 0
IsPlain (object req) = is_answered (int_of (get_or_else (codes "limit") (int (pos 40)) req)) ≡ true
IsPlain _ = ⊥

-- A connection with such a request, or with a text that is blank or no JSON, or that cannot be read; the
-- random bytes of a packet id are 4 bytes.
abbrev IsPlainText : Result (Option Json) → Type 0
IsPlainText (ok none) = Unit
IsPlainText (ok (some req)) = IsPlain req
IsPlainText (err e) = is_caught e ≡ true

pub record IsPlainConnection (c : Connection) : Type 0 where
  pub plain : IsPlainText c.incoming
  pub draw : IsDraw c.world.draw

-- An answer or a caught exception, with a valid node.
abbrev IsAnswered : {A : Type 0} → Result A × Node → Type 0
IsAnswered (r, n) = (is_answered r ≡ true) × IsValid n

cmd_announce-IsAnswered :
    (crypto : Crypto) (k : ℕ) (d : Draw) (n : Node)
    → IsValid n
    → IsDraw d
    → IsAnswered (cmd_announce crypto k d n)
unfolding cmd_announce send_announce_until
cmd_announce-IsAnswered crypto zero d n v w =
    let p = announce_packet crypto d n in
    let n1 = record n {
      flooder = record n.flooder { seen = Seen.add d.added_at (key p) n.flooder.seen };
    } in
    let refused_it = refused_lem p n1 (announce_packet-IsValid crypto d n v w) in
    rw (cmd_announce, made crypto d n v w, and_then, refused_it)
      (refl, added-IsValid d.added_at p n v)
cmd_announce-IsAnswered crypto (suc k) d n v w =
    let (bs, same, air, back) = cmd_announce_lem crypto k d n v w in
    let (p, fine, valid) = send_announce-IsSafe crypto d n v w in
    rw same (refl, rw (send_announce_lem crypto d n v w) at valid)

announce-IsAnswered :
    (r : Result AnnounceReply × Node)
    → IsAnswered r
    → IsAnswered {A = Reply} (and_then r (λ a n'. (ok (announce_reply a), n')))
announce-IsAnswered (ok a, n) h = (refl, h.1)
announce-IsAnswered (err e, n) h = h

module _ (crypto : Crypto) (own : Running) (w : World) (draw : IsDraw w.draw) where
  routes-IsAnswered :
      (want : Json) (limit : Result ℤ) (n : Node)
      → is_answered limit ≡ true
      → IsValid n
      → IsAnswered (answer_routes w want limit n)
  routes-IsAnswered want (ok z) n h v = (refl, v)
  routes-IsAnswered want (err e) n h v = (h, v)

  command-IsAnswered :
      (cmd : Json) (req : Members) (n : Node)
      → IsPlain (object req)
      → IsValid n
      → IsAnswered (command crypto own w cmd req n)
  unfolding command
  command-IsAnswered null req n p v = (refl, v)
  command-IsAnswered (bool b) req n p v = (refl, v)
  command-IsAnswered (int z) req n p v = (refl, v)
  command-IsAnswered (float f) req n p v = (refl, v)
  command-IsAnswered (array xs) req n p v = (refl, v)
  command-IsAnswered (object ms) req n p v = (refl, v)
  command-IsAnswered (text s) req n p v = elim (Bool-cases (s == codes "status")) [
    | inl status ↦ rw (status, command) (refl, v)
    | inr other ↦ elim (Bool-cases (s == codes "routes")) [
      | inl routes ↦
          rw (other, routes, command)
            (routes-IsAnswered (get_or_else (codes "neighbours") (bool false) req) _ n p v)
      | inr other2 ↦ elim (Bool-cases (s == codes "flood")) [
        | inl flood ↦ rw (other, other2, flood, command) (refl, v)
        | inr other3 ↦ elim (Bool-cases (s == codes "announce")) [
          | inl announce ↦
              rw (other, other2, other3, announce, command)
                (announce-IsAnswered (cmd_announce crypto w.radio w.draw n)
                  (cmd_announce-IsAnswered crypto w.radio w.draw n v draw))
          | inr other4 ↦ rw (other, other2, other3, other4, command) (refl, v)
        ]
      ]
    ]
  ]

  handle-IsAnswered :
      (req : Json) (n : Node) → IsPlain req → IsValid n → IsAnswered (handle crypto own w req n)
  unfolding handle
  handle-IsAnswered (object ms) n p v = command-IsAnswered _ ms n p v
  handle-IsAnswered null n p v = absurd p
  handle-IsAnswered (bool b) n p v = absurd p
  handle-IsAnswered (int z) n p v = absurd p
  handle-IsAnswered (float f) n p v = absurd p
  handle-IsAnswered (text s) n p v = absurd p
  handle-IsAnswered (array xs) n p v = absurd p

-- What is sent back: the answer, if the socket takes it, and else that it did not; or the exception. The
-- latter two are a second answer, which the socket takes or does not.
abbrev pub said : Bool → Bool → Result Reply → List Reply
said first second (ok reply) =
    if first then reply ∷ [] else if second then failed os_error ∷ [] else []
said first second (err e) = if second then failed e ∷ [] else []

-- A connection that was served: no exception, one more closed, on this node, which is valid, and with
-- these answers more.
abbrev IsServed : Server → Node → List Reply → Result (Unit {0}) × Server → Type 0
IsServed s n told (r, s') =
    (r ≡ ok tt)
    × (s'.closed ≡ s.closed + 1)
    × IsValid s'.node
    × (s'.node ≡ n)
    × (s'.answers ≡ s.answers ++ told)

sendall_rescued :
    (first second : Bool) (reply : Reply) (s : Server)
    → IsValid s.node
    → IsServed s s.node
        (said first second (ok reply))
        (close_after (rescue second (sendall first reply s)))
sendall_rescued true second reply s v = (refl, refl, v, refl, refl)
sendall_rescued false true reply s v = (refl, refl, v, refl, refl)
sendall_rescued false false reply s v = (refl, refl, v, refl, sym (append-nil s.answers))

caught :
    (first second : Bool) (e : Error) (s : Server)
    → is_caught e ≡ true
    → IsValid s.node
    → IsServed s s.node (said first second (err e)) (close_after (rescue second (err e, s)))
caught first true e s h v = rw h (refl, refl, v, refl, refl)
caught first false e s h v = rw h (refl, refl, v, refl, sym (append-nil s.answers))

answered-IsServed :
    (first second : Bool) (s : Server) (r : Result Reply × Node)
    → IsAnswered r
    → IsServed s r.1 (said first second r.0) (
        close_after (
          rescue second
            (and_then (r.0, record s { node = r.1 }) (λ reply s2. sendall first reply s2))))
answered-IsServed first second s (ok reply, n) a =
    sendall_rescued first second reply (record s { node = n }) a.1
answered-IsServed first second s (err e, n) a =
    caught first second e (record s { node = n }) a.0 a.1

module _ (crypto : Crypto) (own : Running) where
  -- what `handle` makes of a connection's text, if it can be read
  abbrev pub outcome : Connection → Node → Result Reply × Node
  outcome c n = and_then (c.incoming, n) (λ req n1. handle crypto own c.world (or_empty req) n1)

  -- what is sent back to the connections that wait, each handled by the node that the one before it left
  abbrev pub talk : List Connection → Node → List Reply
  talk [] n = []
  talk (c ∷ cs) n = let (r, n') = outcome c n in said c.first_taken c.second_taken r ++ talk cs n'

  -- a connection that was served
  abbrev Serves : Connection → Server → Type 0
  Serves c s =
      let (r, n) = outcome c s.node in
      IsServed s n (said c.first_taken c.second_taken r) (serve crypto own c s)

  serve-IsServed : (c : Connection) (s : Server) → IsPlainConnection c → IsValid s.node → Serves c s
  unfolding serve answer_one int_of get_or_else
  serve-IsServed c s p v = go c.incoming refl p.plain
    where
      go : (m : Result (Option Json)) → c.incoming ≡ m → IsPlainText m → Serves c s
      go (err e) h plain =
          rw (h, serve, answer_one) (caught c.first_taken c.second_taken e s plain v)
      go (ok none) h plain =
          rw (h, serve, answer_one)
            (answered-IsServed c.first_taken c.second_taken s _
              (handle-IsAnswered crypto own c.world p.draw (object no_member) s.node refl v))
      go (ok (some req)) h plain =
          rw (h, serve, answer_one)
            (answered-IsServed c.first_taken c.second_taken s _
              (handle-IsAnswered crypto own c.world p.draw req s.node plain v))

  -- The connections that were served before a request, or all of them.
  pub serve_all-append :
      (cs rest : List Connection) (k : ℕ) (s : Server)
      → All IsPlainConnection cs
      → IsValid s.node
      → (s' : Server) × (serve_all crypto own (cs ++ rest) k s
          ≡ serve_all crypto own rest (k + length cs) s')
        × (s'.closed ≡ s.closed + length cs)
        × IsValid s'.node
        × (s'.answers ≡ s.answers ++ talk cs s.node)
  unfolding serve_all
  serve_all-append [] rest k s a v = (
    s,
    ap (λ j. serve_all crypto own rest j s) (omega arith),
    omega arith,
    v,
    sym (append-nil s.answers),
  )
  serve_all-append (c ∷ cs) rest k s a v =
      let (fine, closed, valid, left, told) = serve-IsServed c s a.0 v in
      let (r, n) = outcome c s.node in
      let first = said c.first_taken c.second_taken r in
      let s1 = (serve crypto own c s).1 in
      let (s', same, count, w, rest_told) = serve_all-append cs rest (k + 1) s1 a.1 valid in
      (
        s',
        rw (serve_all, fine, and_then)
            (same ∙ ap (λ j. serve_all crypto own rest j s') (omega arith)),
        omega (arith, closed, count),
        w,
        rest_told
            ∙ ap₂ (λ before m. before ++ talk cs m) told left
            ∙ append_assoc s.answers first (talk cs n),
      )

  -- If the texts that wait are blank, unreadable, no JSON, or objects whose limit int() reads or refuses with
  -- a ValueError, and the random bytes of a packet id are 4 bytes, poll returns their number, closes each
  -- and leaves a valid node. Each is sent what handle answers, by the node that the one before it left, or,
  -- if the socket does not take this or there is an exception, the exception, unless the socket does not
  -- take this either; nothing else is sent.
  pub poll_served :
      (cs : List Connection) (s : Server)
      → All IsPlainConnection cs
      → IsValid s.node
      → (s' : Server) × (poll crypto own (some cs) s ≡ (ok (length cs), s'))
        × (s'.closed ≡ s.closed + length cs)
        × IsValid s'.node
        × (s'.answers ≡ s.answers ++ talk cs s.node)
  unfolding poll serve_all
  poll_served cs s a v =
      let (s', same, closed, valid, told) = serve_all-append cs [] 0 s a v in
      (
        s',
        ap (λ l. serve_all crypto own l 0 s) (sym (append-nil cs))
            ∙ same
            ∙ ap (λ (k : ℕ). (ok k, s')) (omega arith),
        closed,
        valid,
        told,
      )
