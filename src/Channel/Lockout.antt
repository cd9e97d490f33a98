-- ===== src/Channel/Lockout.antt =====
-- Channels that have lost their administrators.
use enxame.Base.{
  ℕ, String, ◌≡◌, ◌⊎◌, refl, subst, sym, Bool, true, false, List, [], ◌∷◌, Option, none, some,
  arith, eq_iff, Option-cases, Bool-cases, inl, inr,
}
use enxame.Base.Text.{◌==◌}
use enxame.Base.Dict.{lookup, insert, lookup-insert, lookup-delete}
use enxame.Base.Exec.{Outcome, ok, err, panic}
use enxame.Channel.Governance.{govern_lem, govern_refused}
use enxame.Channel.{
  ChannelData, ChannelServer, Services, Refusal, Signed, new_channel_server, govern, role_in,
  is_admin, is_staff, promote_user, demote_user, kick_user, create_channel, created, slug,
  update_channel_avatar,
}

-- The requests of the service, with the time at which each is handled.
pub data Call : Type 0 where
  creates : ℕ → String → String → String → Call
  promotes : ℕ → String → Signed → Call
  demotes kicks : ℕ → Signed → Call
  sets_avatar : String → String → String → ℕ → List ℕ → Call

-- The channel exists, and none of its nodes is ADMIN.
abbrev NoAdmin : Option ChannelData → Type 0
NoAdmin none = ⊥
NoAdmin (some ch) = (n : String) → is_admin (role_in ch n) ≡ false

abbrev pub IsLocked : String → ChannelServer → Type 0
IsLocked k s = NoAdmin (lookup k s.channels)

module _ (services : Services) where
  unfoldable pub step : ChannelServer → Call → ChannelServer
  step s (creates now name owner avatar) = (create_channel now name owner avatar s).1
  step s (promotes now role r) = (promote_user services now role r s).1
  step s (demotes now r) = (demote_user services now r s).1
  step s (kicks now r) = (kick_user services now r s).1
  step s (sets_avatar channel avatar requester ts sig) =
      (update_channel_avatar services channel avatar requester ts sig s).1

  unfoldable pub run : ChannelServer → List Call → ChannelServer
  run s [] = s
  run s (c ∷ cs) = run (step s c) cs

  govern-IsLocked :
      (k : String) (may : String → Bool) (change : ChannelData → ChannelData) (action role : String)
      (now : ℕ) (r : Signed) (s : ChannelServer)
      → ((ch : ChannelData)
          → may (role_in ch r.requester_id) ≡ true
          → ((n : String) → is_admin (role_in ch n) ≡ false)
          → (n : String) → is_admin (role_in (change ch) n) ≡ false)
      → IsLocked k s
      → IsLocked k (govern services may change action role now r s).1
  govern-IsLocked k may change action role now r s h v =
      elim (govern_refused services may change action role now r s) [
        | inr same ↦ rw same v
        | inl done ↦
            let (ch, found, allowed, signed, after) =
              govern_lem services may change action role now r s done in
            elim (Bool-cases (r.channel_id == k)) [
              | inl same ↦
                  rw (after k, same)
                    (h ch allowed (
                      subst (λ o. NoAdmin o) found
                        (subst (λ j. IsLocked j s)
                          (sym (ground (arith, same, eq_iff r.channel_id k))) v)))
              | inr other ↦ rw (after k, other) v
            ]
      ]

  create_channel-IsLocked :
      (k : String) (now : ℕ) (name owner avatar : String) (s : ChannelServer)
      → IsLocked k s
      → IsLocked k (create_channel now name owner avatar s).1
  unfolding create_channel
  create_channel-IsLocked k now name owner avatar s v = elim (Option-cases (lookup k s.channels)) [
    | inl absent ↦ absurd (subst (λ o. NoAdmin o) absent v)
    | inr (ch, found) ↦
        let same : lookup k (create_channel now name owner avatar s).1.channels
            ≡ lookup k s.channels =
          ground (
            arith,
            found,
            eq_iff (slug name) k,
            lookup-insert (slug name) k (created now name owner avatar) s.channels,
          ) in
        rw same v
  ]

  avatar_changed :
      (channel avatar requester : String) (ts : ℕ) (sig : List ℕ) (s : ChannelServer)
      (ch : ChannelData)
      → lookup channel s.channels ≡ some ch
      → (o : Outcome Refusal Unit)
      → (update_channel_avatar services channel avatar requester ts sig s).0 ≡ o
      → ((update_channel_avatar services channel avatar requester ts sig s).1.channels ≡ s.channels)
        ⊎ ((update_channel_avatar services channel avatar requester ts sig s).1.channels
            ≡ insert channel (record ch { avatar = avatar }) s.channels)
  unfolding update_channel_avatar
  avatar_changed channel avatar requester ts sig s ch found (ok u) h =
      inr (ground (arith, found, h))
  avatar_changed channel avatar requester ts sig s ch found (err e) h =
      inl (ground (arith, found, h))
  avatar_changed channel avatar requester ts sig s ch found panic h = inl (ground (arith, found, h))

  avatar_absent :
      (channel avatar requester : String) (ts : ℕ) (sig : List ℕ) (s : ChannelServer)
      → lookup channel s.channels ≡ none
      → (update_channel_avatar services channel avatar requester ts sig s).1.channels ≡ s.channels
  unfolding update_channel_avatar
  avatar_absent channel avatar requester ts sig s absent = ground (arith, absent)

  -- The roles of a channel that was found under the same id.
  same_roles :
      (k : String) (s : ChannelServer) (ch : ChannelData) (avatar : String)
      → lookup k s.channels ≡ some ch
      → IsLocked k s
      → (n : String) → is_admin (role_in (record ch { avatar = avatar }) n) ≡ false
  same_roles k s ch avatar found v = subst NoAdmin found v

  update_channel_avatar-IsLocked :
      (k channel avatar requester : String) (ts : ℕ) (sig : List ℕ) (s : ChannelServer)
      → IsLocked k s
      → IsLocked k (update_channel_avatar services channel avatar requester ts sig s).1
  update_channel_avatar-IsLocked k channel avatar requester ts sig s v =
      elim (Option-cases (lookup channel s.channels)) [
        | inl absent ↦ rw (avatar_absent channel avatar requester ts sig s absent) v
        | inr (ch, found) ↦
            elim (avatar_changed channel avatar requester ts sig s ch found _ refl) [
              | inl same ↦ rw same v
              | inr put ↦ elim (Bool-cases (channel == k)) [
                | inl here ↦
                    rw
                      (
                        put,
                        lookup-insert channel k (record ch { avatar = avatar }) s.channels,
                        here,
                      )
                      (same_roles k s ch avatar
                        (subst (λ j. lookup j s.channels ≡ some ch)
                          (ground (arith, here, eq_iff channel k)) found)
                        v)
                | inr other ↦
                    rw
                      (
                        put,
                        lookup-insert channel k (record ch { avatar = avatar }) s.channels,
                        other,
                      )
                      v
              ]
            ]
      ]

  step-IsLocked : (k : String) (s : ChannelServer) (c : Call) → IsLocked k s → IsLocked k (step s c)
  unfolding step promote_user demote_user kick_user
  step-IsLocked k s (creates now name owner avatar) v =
      create_channel-IsLocked k now name owner avatar s v
  step-IsLocked k s (promotes now role r) v =
      govern-IsLocked k is_admin _ "PROMOTE" role now r s
        (λ ch may h n. ground (arith, may, h r.requester_id)) v
  step-IsLocked k s (demotes now r) v =
      govern-IsLocked k is_admin _ "DEMOTE" "" now r s
        (λ ch may h n. ground (arith, may, h r.requester_id)) v
  step-IsLocked k s (kicks now r) v =
      govern-IsLocked k is_staff _ "KICK" "" now r s
        (λ ch may h n. elim (Bool-cases (r.target_node_id == n)) [
          | inl gone ↦ rw (lookup-delete r.target_node_id n ch.roles, gone) refl
          | inr kept ↦ rw (lookup-delete r.target_node_id n ch.roles, kept) (h n)
        ])
        v
  step-IsLocked k s (sets_avatar channel avatar requester ts sig) v =
      update_channel_avatar-IsLocked k channel avatar requester ts sig s v

  -- A channel that exists and has no ADMIN has none after any requests, whoever makes them.
  pub run-IsLocked :
      (k : String) (s : ChannelServer) (cs : List Call) → IsLocked k s → IsLocked k (run s cs)
  unfolding run
  run-IsLocked k s [] v = v
  run-IsLocked k s (c ∷ cs) v = run-IsLocked k (step s c) cs (step-IsLocked k s c v)

  -- The channel #Inicio, which the server creates when it starts, never has an ADMIN.
  pub inicio-IsLocked :
      (now : ℕ) (cs : List Call) → IsLocked "#Inicio" (run (new_channel_server now) cs)
  unfolding new_channel_server lookup insert
  inicio-IsLocked now cs = run-IsLocked "#Inicio" (new_channel_server now) cs (λ n. refl)
