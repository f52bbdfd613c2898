-- ===== src/Identity/Announces.antt =====
-- What an announce that verifies proves, and that the announces that are built verify.
use wifipi.Prelude.{
  ◌≡◌, ◌≤◌, refl, subst, ap, sym, ◌∙◌, ◌↔◌, inl, inr, true, length, take, drop, ◌++◌, ltb, list_eq,
  arith, Bool-cases, ltb→ge, ge→ltb, eq_iff, eq_refl, take-append-drop, take-append_of_length,
  drop-append_of_length, length-append, length-take, length-drop,
}
use wifipi.Prelude.Result.{ok}
use wifipi.Bytes.{Bytes}
use wifipi.Identity.{
  Crypto, Announce, signed_bytes, node_id_from_key, identity, build_announce, check_announce,
  parse_announce,
}

-- The payload of an announce: the keys, 10 random bytes, the signature of all but itself together
-- with the address, and the application's data. The address belongs to the signing key.
pub record IsSigned (c : Crypto) (src payload : Bytes) (a : Announce) : Type 0 where
  pub random : Bytes
  pub sig : Bytes
  pub layout : payload ≡ a.sign_pub ++ (a.encrypt_pub ++ (random ++ (sig ++ a.app_data)))
  pub sign_pub_length : length a.sign_pub ≡ 32
  pub encrypt_pub_length : length a.encrypt_pub ≡ 32
  pub random_length : length random ≡ 10
  pub sig_length : length sig ≡ 64
  pub for_src : a.node_id ≡ src
  pub owner : node_id_from_key c a.sign_pub ≡ src
  pub signed :
      c.verifies a.sign_pub sig (signed_bytes src a.sign_pub a.encrypt_pub random a.app_data) ≡ true

module _ (c : Crypto) (src : Bytes) where
  parse_announce-append :
      (sp ep random sig app : Bytes)
      → length sp ≡ 32
      → length ep ≡ 32
      → length random ≡ 10
      → length sig ≡ 64
      → parse_announce c src (sp ++ (ep ++ (random ++ (sig ++ app))))
        ≡ check_announce c src sp ep random sig app
  unfolding parse_announce
  parse_announce-append sp ep random sig app a b d e =
      let long : 138 ≤ length (sp ++ (ep ++ (random ++ (sig ++ app)))) = omega (
        arith,
        a,
        b,
        d,
        e,
        length-append sp (ep ++ (random ++ (sig ++ app))),
        length-append ep (random ++ (sig ++ app)),
        length-append random (sig ++ app),
        length-append sig app,
      ) in
      rw
        (
          ge→ltb (length (sp ++ (ep ++ (random ++ (sig ++ app))))) 138 long,
          take-append_of_length 32 sp (ep ++ (random ++ (sig ++ app))) a,
          drop-append_of_length 32 sp (ep ++ (random ++ (sig ++ app))) a,
          take-append_of_length 32 ep (random ++ (sig ++ app)) b,
          drop-append_of_length 32 ep (random ++ (sig ++ app)) b,
          take-append_of_length 10 random (sig ++ app) d,
          drop-append_of_length 10 random (sig ++ app) d,
          take-append_of_length 64 sig app e,
          drop-append_of_length 64 sig app e,
        )
        refl

  check_announce-ok :
      (sp ep random sig app : Bytes)
      → node_id_from_key c sp ≡ src
      → c.verifies sp sig (signed_bytes src sp ep random app) ≡ true
      → check_announce c src sp ep random sig app
        ≡ ok (record { node_id = src; sign_pub = sp; encrypt_pub = ep; app_data = app })
  unfolding check_announce
  check_announce-ok sp ep random sig app own verified = rw (own, eq_refl src, verified) refl

  check_announce-checked :
      (sp ep random sig app : Bytes) (a : Announce)
      → check_announce c src sp ep random sig app ≡ ok a
      → (node_id_from_key c sp ≡ src)
        × ((c.verifies sp sig (signed_bytes src sp ep random app) ≡ true)
            × (a ≡ record { node_id = src; sign_pub = sp; encrypt_pub = ep; app_data = app }))
  unfolding check_announce
  check_announce-checked sp ep random sig app a h =
      ground (arith, eq_iff (node_id_from_key c sp) src)

  parse_announce-checked :
      (payload : Bytes) (a : Announce)
      → parse_announce c src payload ≡ ok a
      → (138 ≤ length payload)
        × (check_announce c src
              (take 32 payload)
              (take 32 (drop 32 payload))
              (take 10 (drop 32 (drop 32 payload)))
              (take 64 (drop 10 (drop 32 (drop 32 payload))))
              (drop 64 (drop 10 (drop 32 (drop 32 payload))))
            ≡ ok a)
  unfolding parse_announce
  parse_announce-checked payload a h = elim (Bool-cases (ltb (length payload) 138)) [
    | inl short ↦ absurd (cc (rw short at h))
    | inr enough ↦ (ltb→ge (length payload) 138 enough, rw enough at h)
  ]

  -- the pieces into which `parse_announce` cuts a payload
  pieces :
      (payload : Bytes)
      → payload
        ≡ take 32 payload
          ++ (take 32 (drop 32 payload)
              ++ (take 10 (drop 32 (drop 32 payload))
                  ++ (take 64 (drop 10 (drop 32 (drop 32 payload)))
                      ++ drop 64 (drop 10 (drop 32 (drop 32 payload))))))
  pieces payload =
      rw
        (
          take-append-drop 64 (drop 10 (drop 32 (drop 32 payload))),
          take-append-drop 10 (drop 32 (drop 32 payload)),
          take-append-drop 32 (drop 32 payload),
          take-append-drop 32 payload,
        )
        refl

  -- `parse_announce` accepts a payload exactly if it is a signed announce of the address, and
  -- returns the address, the keys and the data that were signed.
  pub parse_announce-ok_iff :
      (payload : Bytes) (a : Announce)
      → (parse_announce c src payload ≡ ok a) ↔ IsSigned c src payload a
  parse_announce-ok_iff payload a = (accepted, rebuilt)
    where
      rebuilt : IsSigned c src payload a → parse_announce c src payload ≡ ok a
      rebuilt s =
          rw
            (
              s.layout,
              parse_announce-append a.sign_pub a.encrypt_pub s.random s.sig a.app_data
                  s.sign_pub_length s.encrypt_pub_length s.random_length s.sig_length,
            )
            (check_announce-ok a.sign_pub a.encrypt_pub s.random s.sig a.app_data s.owner s.signed
              ∙ ap (λ n. ok (record a { node_id = n })) (sym s.for_src))

      accepted : parse_announce c src payload ≡ ok a → IsSigned c src payload a
      accepted h =
          let (long, checked) = parse_announce-checked payload a h in
          let rest1 = drop 32 payload in
          let rest2 = drop 32 rest1 in
          let rest3 = drop 10 rest2 in
          let (own, (verified, same)) =
            check_announce-checked (take 32 payload) (take 32 rest1) (take 10 rest2) (take 64 rest3)
              (drop 64 rest3) a checked in
          let n1 = length-drop 32 payload in
          let n2 = length-drop 32 rest1 in
          let n3 = length-drop 10 rest2 in
          subst (IsSigned c src payload) (sym same) (record {
            random = take 10 rest2;
            sig = take 64 rest3;
            layout = pieces payload;
            sign_pub_length = omega (arith, length-take 32 payload, long);
            encrypt_pub_length = omega (arith, length-take 32 rest1, n1, long);
            random_length = omega (arith, length-take 10 rest2, n1, n2, long);
            sig_length = omega (arith, length-take 64 rest3, n1, n2, n3, long);
            for_src = refl;
            owner = own;
            signed = verified;
          })

-- An announce that a node builds is accepted under the node's own address, with its keys and its
-- data, if the keys have 32 bytes, the random part 10, and what the key signs, in 64 bytes,
-- verifies under its public half.
pub parse_announce-build_announce :
    (c : Crypto) (sign_key sign_pub encrypt_pub random app_data : Bytes)
    → length sign_pub ≡ 32
    → length encrypt_pub ≡ 32
    → length random ≡ 10
    → ((d : Bytes) → length (c.sign sign_key d) ≡ 64)
    → ((d : Bytes) → c.verifies sign_pub (c.sign sign_key d) d ≡ true)
    → let i = identity c sign_key sign_pub encrypt_pub in
      parse_announce c i.node_id (build_announce c random app_data i)
      ≡ ok (record {
        node_id = i.node_id;
        sign_pub = sign_pub;
        encrypt_pub = encrypt_pub;
        app_data = app_data;
      })
unfolding identity build_announce
parse_announce-build_announce c sign_key sign_pub encrypt_pub random app_data a b d e verified =
    let id = node_id_from_key c sign_pub in
    let signed = signed_bytes id sign_pub encrypt_pub random app_data in
    parse_announce-append c id sign_pub encrypt_pub random (c.sign sign_key signed) app_data a b d
      (e signed)
    ∙ check_announce-ok c id sign_pub encrypt_pub random (c.sign sign_key signed) app_data refl
        (verified signed)
