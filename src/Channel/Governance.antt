-- ===== src/Channel/Governance.antt =====
-- What the governance operations of a channel do, and for whom.
use enxame.Base.{
  ℕ, String, ◌≡◌, ◌⊎◌, refl, Bool, true, false, List, some, arith, length, if◌then◌else◌,
  Option-cases, Bool-cases, inl, inr, leb,
}
use enxame.Base.Text.{◌==◌}
use enxame.Base.Dict.{lookup, insert, delete, lookup-insert}
use enxame.Base.Exec.{ok, panic}
use enxame.Channel.{
  ChannelData, ChannelServer, Found, failed, unknown, known, Services, Signed, governance_payload,
  verify_governance_signature, govern, role_in, is_admin, is_staff, promote_user, demote_user,
  kick_user, is_expired,
}

module _ (services : Services) where
  -- The signature of a request is the requester's, on this role, and not expired.
  abbrev pub IsSigned : ℕ → String → Signed → Type 0
  IsSigned now role r =
      (key : List ℕ) × (services.get_node r.requester_id ≡ known key)
      × (services.verify key
            (governance_payload r.target_node_id role r.scope r.channel_id r.timestamp) r.signature
          ≡ true)
      × (is_expired now r.timestamp ≡ false)

  signed_lem :
      (now : ℕ) (role : String) (r : Signed) (s : ChannelServer)
      → (verify_governance_signature services now role r s).0 ≡ ok tt
      → IsSigned now role r
  unfolding verify_governance_signature
  signed_lem now role r s h = by_node (services.get_node r.requester_id) refl
    where
      by_node : (f : Found) → services.get_node r.requester_id ≡ f → IsSigned now role r
      by_node failed e = ground (arith, e, h)
      by_node unknown e = ground (arith, e, h)
      by_node (known key) e = (key, e, ground (arith, e, h), ground (arith, e, h))

  -- What has happened when an operation succeeded.
  abbrev pub Governed :
      (String → Bool)
      → (ChannelData → ChannelData)
      → ℕ
      → String
      → Signed
      → ChannelServer
      → ChannelServer
      → Type 0
  Governed may change now role r s t =
      (ch : ChannelData) × (lookup r.channel_id s.channels ≡ some ch)
      × (may (role_in ch r.requester_id) ≡ true)
      × IsSigned now role r
      × ((k : String)
          → lookup k t.channels
            ≡ (if r.channel_id == k then some (change ch) else lookup k s.channels))

  pub govern_lem :
      (may : String → Bool) (change : ChannelData → ChannelData) (action role : String) (now : ℕ)
      (r : Signed) (s : ChannelServer)
      → (govern services may change action role now r s).0 ≡ ok tt
      → Governed may change now role r s (govern services may change action role now r s).1
  unfolding govern verify_governance_signature
  govern_lem may change action role now r s h =
      elim (Option-cases (lookup r.channel_id s.channels)) [
        | inl absent ↦ ground (arith, absent, h)
        | inr (ch, found) ↦ (
          ch,
          found,
          ground (arith, found, h),
          signed_lem now role r s (ground (arith, h)),
          λ k. ground (arith, found, h, lookup-insert r.channel_id k (change ch) s.channels),
        )
      ]

  -- A promotion succeeds only on an existing channel, on a signature of the requester that is not
  -- expired and names the role, and for a requester who is ADMIN of the channel; the target then has
  -- that role there, and all other roles and channels are as they were.
  pub promote_user_lem :
      (now : ℕ) (role : String) (r : Signed) (s : ChannelServer)
      → (promote_user services now role r s).0 ≡ ok tt
      → Governed is_admin
          (λ ch. record ch { roles = insert r.target_node_id role ch.roles })
          now
          role
          r
          s
          (promote_user services now role r s).1
  unfolding promote_user
  promote_user_lem now role r s h = govern_lem is_admin _ "PROMOTE" role now r s h

  -- A demotion succeeds only on an existing channel, on a signature of the requester that is not
  -- expired, and for a requester who is ADMIN of the channel; the target has no role there any more,
  -- and all else is as it was.
  pub demote_user_lem :
      (now : ℕ) (r : Signed) (s : ChannelServer)
      → (demote_user services now r s).0 ≡ ok tt
      → Governed is_admin
          (λ ch. record ch { roles = delete r.target_node_id ch.roles })
          now
          ""
          r
          s
          (demote_user services now r s).1
  unfolding demote_user
  demote_user_lem now r s h = govern_lem is_admin _ "DEMOTE" "" now r s h

  -- A kick succeeds only on an existing channel, on a signature of the requester that is not expired,
  -- and for a requester who is MODERATOR or ADMIN of the channel; the target is no member and has no
  -- role there any more, and all else is as it was.
  pub kick_user_lem :
      (now : ℕ) (r : Signed) (s : ChannelServer)
      → (kick_user services now r s).0 ≡ ok tt
      → Governed is_staff
          (λ ch. record ch {
            members = delete r.target_node_id ch.members;
            roles = delete r.target_node_id ch.roles;
          })
          now
          ""
          r
          s
          (kick_user services now r s).1
  unfolding kick_user
  kick_user_lem now r s h = govern_lem is_staff _ "KICK" "" now r s h

  pub govern_refused :
      (may : String → Bool) (change : ChannelData → ChannelData) (action role : String) (now : ℕ)
      (r : Signed) (s : ChannelServer)
      → ((govern services may change action role now r s).0 ≡ ok tt)
        ⊎ ((govern services may change action role now r s).1 ≡ s)
  unfolding govern verify_governance_signature
  govern_refused may change action role now r s =
      elim (Option-cases (lookup r.channel_id s.channels)) [
        | inl absent ↦ inr (ground (arith, absent))
        | inr (ch, found) ↦
            elim (Bool-cases (
              leb (length (govern services may change action role now r s).1.audit)
                (length s.audit))) [
                  | inl same ↦ inr (ground (arith, found, same))
                  | inr grown ↦ inl (ground (arith, found, grown))
                ]
      ]

  -- A promotion, a demotion and a kick each succeed or change nothing.
  pub promote_refused :
      (now : ℕ) (role : String) (r : Signed) (s : ChannelServer)
      → (((promote_user services now role r s).0 ≡ ok tt)
          ⊎ ((promote_user services now role r s).1 ≡ s))
        × (((demote_user services now r s).0 ≡ ok tt) ⊎ ((demote_user services now r s).1 ≡ s))
        × (((kick_user services now r s).0 ≡ ok tt) ⊎ ((kick_user services now r s).1 ≡ s))
  unfolding promote_user demote_user kick_user
  promote_refused now role r s = (
    govern_refused is_admin _ "PROMOTE" role now r s,
    govern_refused is_admin _ "DEMOTE" "" now r s,
    govern_refused is_staff _ "KICK" "" now r s,
  )

  -- Whoever holds a demotion that succeeds can have the target kicked from the channel with the same
  -- signature: the payload does not name the operation.
  pub kick-demote_user :
      (now : ℕ) (r : Signed) (s : ChannelServer)
      → (demote_user services now r s).0 ≡ ok tt
      → (kick_user services now r s).0 ≡ ok tt
  unfolding demote_user kick_user govern verify_governance_signature
  kick-demote_user now r s h = elim (Option-cases (lookup r.channel_id s.channels)) [
    | inl absent ↦ ground (arith, absent, h)
    | inr (ch, found) ↦ ground (arith, found, h)
  ]

  -- For a requester that no node is registered under, a promotion panics.
  pub promote_unknown :
      (now : ℕ) (role : String) (r : Signed) (s : ChannelServer)
      → services.get_node r.requester_id ≡ unknown
      → promote_user services now role r s ≡ (panic, s)
  unfolding promote_user govern verify_governance_signature
  promote_unknown now role r s h = ground (arith, h)
