-- ===== src/Control/Server/Stopped.antt =====
-- Which requests stop the daemon.
use wifipi.Identity.{Crypto}
use wifipi.Prelude.{
  ◌∙◌, arith, ap, length, ◌++◌, All, List, ◌+◌, refl, Option, ◌≡◌, ◌∷◌, some, list_eq, pair_eq,
}
use wifipi.Prelude.Result.{Result, ok, err, attribute_error, and_then}
use wifipi.Control.Json.{Json, null, bool, int, float, text, array, object}
use wifipi.Control.Server.{
  Reply, World, handle, Connection, Server, sendall, rescue, close_after, or_empty, answer_one,
  serve, serve_all, poll,
}
use wifipi.Node.{Node}
use wifipi.Node.Robust.{IsValid}
use wifipi.Node.Status.{Running}
use wifipi.Control.Server.Served.{IsPlainConnection, serve_all-append}

-- what has no `get`
abbrev pub IsNoObject : Json → Type 0
IsNoObject (object req) = ⊥
IsNoObject _ = Unit

module _ (crypto : Crypto) (own : Running) where
  handle_other :
      (w : World) (req : Json) (n : Node)
      → IsNoObject req
      → handle crypto own w req n ≡ (err attribute_error, n)
  unfolding handle
  handle_other w (object ms) n o = absurd o
  handle_other w null n o = refl
  handle_other w (bool b) n o = refl
  handle_other w (int z) n o = refl
  handle_other w (float f) n o = refl
  handle_other w (text s) n o = refl
  handle_other w (array xs) n o = refl

  serve_other :
      (c : Connection) (req : Json) (s : Server)
      → c.incoming ≡ ok (some req)
      → IsNoObject req
      → serve crypto own c s ≡ (err attribute_error, record s { closed = s.closed + 1 })
  unfolding serve answer_one
  serve_other c req s h o =
      ap
        (λ (m : Result (Option Json)). close_after (
          rescue c.second_taken (
            and_then (m, s)
              (λ got s1.
                let (r, n) = handle crypto own c.world (or_empty got) s1.node in
                and_then (r, record s1 { node = n })
                  (λ reply s2. sendall c.first_taken reply s2)))))
        h
      ∙ ap
          (λ (p : Result Reply × Node). close_after (
            rescue c.second_taken (
              and_then (p.0, record s { node = p.1 })
                (λ reply s2. sendall c.first_taken reply s2))))
          (handle_other c.world req s.node o)

  -- A request that is JSON but no object ends poll with an AttributeError, behind any requests that are
  -- answered: its connection is closed, and those after it are not served.
  pub poll_stopped :
      (cs rest : List Connection) (c : Connection) (req : Json) (s : Server)
      → All IsPlainConnection cs
      → c.incoming ≡ ok (some req)
      → IsNoObject req
      → IsValid s.node
      → (s' : Server) × (poll crypto own (some (cs ++ c ∷ rest)) s ≡ (err attribute_error, s'))
        × (s'.closed ≡ s.closed + length cs + 1)
  unfolding poll serve_all
  poll_stopped cs rest c req s a h o v =
      let (s1, same, closed, valid, told) = serve_all-append crypto own cs (c ∷ rest) 0 s a v in
      (
        record s1 { closed = s1.closed + 1 },
        same
            ∙ ap
                (λ (p : Result (Unit {0}) × Server).
                  and_then p (λ _ s2. serve_all crypto own rest (0 + length cs + 1) s2))
                (serve_other c req s1 h o),
        omega (arith, closed),
      )
