-- ===== src/Client/Governance.antt =====
-- A governance operation of a client as the core server performs it.
use enxame.Base.{
  ℕ, String, ◌≡◌, ◌⊎◌, inl, inr, refl, ap, true, false, List, some, arith, eq_refl, eq_iff, length,
  ◌||◌,
}
use enxame.Base.Dict.{lookup, insert, lookup-insert}
use enxame.Base.Text.{◌==◌}
use enxame.Base.Exec.{Outcome, ok, err, panic}
use enxame.Channel.{
  Services, Signed, ChannelData, ChannelServer, Refusal, permission_denied, known,
  governance_payload, role_in, is_expired, verify_governance_signature, govern, promote_user,
}
use enxame.Client.{EnxameClient, Library, World, refused}
use enxame.Client.Core
use enxame.Client.Core.{Answer, failed, unsuccessful, answered}

-- The answer to an outcome: an error of the handler is an answer with Success false, a panic an error.
abbrev pub answer_of : {A : Type 0} → Outcome Refusal A → Answer A
answer_of (ok a) = answered a
answer_of (err e) = unsuccessful
answer_of panic = failed

-- The server knows a key of the client, under which Ed25519 accepts what the client signs.
abbrev pub KnowsKey : Library → Services → EnxameClient → Type 0
KnowsKey lib services c =
    (key : List ℕ) × (services.get_node c.node_id ≡ known key)
    × (length key ≡ 32)
    × ((message : String)
        → services.verify key message (lib.sign c.private_key (lib.to_bytes message)) ≡ true)

module _ (lib : Library) (services : Services) where
  verify_governance_signature_ok :
      (now : ℕ) (w : World) (target role channel : String) (c : EnxameClient) (s : ChannelServer)
      → KnowsKey lib services c
      → is_expired now w.now ≡ false
      → verify_governance_signature services now role (Core.signed lib w target role channel c) s
        ≡ (ok tt, s)
  unfolding verify_governance_signature
  verify_governance_signature_ok now w target role channel c s (key, found, sized, good) fresh =
      rw (found, sized, good (governance_payload target role "CHANNEL" channel w.now), fresh) refl

  -- The server's part of a promotion that a client asks for.
  abbrev pub promoted :
      ℕ
      → World
      → String
      → String
      → String
      → EnxameClient
      → ChannelServer
      → Outcome Refusal Unit × ChannelServer
  promoted now w target role channel c s =
      promote_user services now role (Core.signed lib w target role channel c) s

  not_admin : (role : String) → (role ≡ "ADMIN" → ⊥) → role == "ADMIN" ≡ false
  not_admin role other = ground (arith, eq_iff role "ADMIN", other)

  may_assign :
      (role : String)
      → (role ≡ "ADMIN") ⊎ (role ≡ "MODERATOR")
      → (role == "ADMIN" || role == "MODERATOR") ≡ true
  may_assign role (inl e) = rw e refl
  may_assign role (inr e) = rw e refl

  promoted_lem :
      (now : ℕ) (w : World) (target role channel : String) (c : EnxameClient) (s : ChannelServer)
      (ch : ChannelData)
      → KnowsKey lib services c
      → is_expired now w.now ≡ false
      → lookup channel s.channels ≡ some ch
      → (role_in ch c.node_id ≡ "ADMIN"
          → ((promoted now w target role channel c s).0 ≡ ok tt)
            × ((ch' : ChannelData) × (lookup channel
                    (promoted now w target role channel c s).1.channels
                  ≡ some ch')
                × (lookup target ch'.roles ≡ some role)))
        × ((role_in ch c.node_id ≡ "ADMIN" → ⊥)
            → promoted now w target role channel c s ≡ (err permission_denied, s))
  unfolding promote_user govern
  promoted_lem now w target role channel c s ch knows fresh found =
      let signature = verify_governance_signature_ok now w target role channel c s knows fresh in
      (
        λ admin. (
          rw (signature, found, admin) refl,
          (
            record ch { roles = insert target role ch.roles },
            rw (signature, found, admin)
                (rw
                  (
                    lookup-insert channel channel
                        (record ch { roles = insert target role ch.roles }) s.channels,
                    eq_refl channel,
                  )
                  refl),
            ground (arith, lookup-insert target target role ch.roles, eq_refl target),
          ),
        ),
        λ other. rw (signature, found, not_admin (role_in ch c.node_id) other) refl,
      )

  -- The server understands what the client signs: with a key of the client that the server knows and a
  -- fresh timestamp, a promotion to ADMIN or MODERATOR in a channel succeeds, and gives the role, exactly
  -- if the client is ADMIN there; else it is refused and the server stays as it is.
  pub promote_user_accepted :
      (now : ℕ) (w : World) (target role channel : String) (c : EnxameClient) (s : ChannelServer)
      (ch : ChannelData)
      → KnowsKey lib services c
      → is_expired now w.now ≡ false
      → (role ≡ "ADMIN") ⊎ (role ≡ "MODERATOR")
      → lookup channel s.channels ≡ some ch
      → let call : String → Signed → Answer Unit =
          λ r signed. answer_of (promote_user services now r signed s).0 in
        (role_in ch c.node_id ≡ "ADMIN"
          → (Core.promote_user lib w call target role channel c ≡ (ok tt, c))
            × ((ch' : ChannelData) × (lookup channel
                    (promoted now w target role channel c s).1.channels
                  ≡ some ch')
                × (lookup target ch'.roles ≡ some role)))
        × ((role_in ch c.node_id ≡ "ADMIN" → ⊥)
            → (Core.promote_user lib w call target role channel c ≡ (err refused, c))
              × ((promoted now w target role channel c s).1 ≡ s))
  unfolding Core.promote_user
  promote_user_accepted now w target role channel c s ch knows fresh allowed found =
      let server = promoted_lem now w target role channel c s ch knows fresh found in
      (
        λ admin. (
          rw (may_assign role allowed) (ap (λ o. Core.expect (answer_of o) c) (server.0 admin).0),
          (server.0 admin).1,
        ),
        λ other. (
          rw (may_assign role allowed) (ap (λ x. Core.expect (answer_of x.0) c) (server.1 other)),
          ap (λ x. x.1) (server.1 other),
        ),
      )
