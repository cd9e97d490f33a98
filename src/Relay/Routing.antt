-- ===== src/Relay/Routing.antt =====
-- ForwardEnvelope on each of its branches.
use enxame.Base.{
  ℕ, ◌+◌, ◌≤◌, String, len, ◌≡◌, ◌≢◌, true, false, ◌&&◌, [], ◌∷◌, ◌++◌, arith, eq_iff, length,
  Option-cases, ltb, if◌then◌else◌, inl, inr,
}
use enxame.Base.Dict.{lookup, has}
use enxame.Base.Text.{◌==◌, has_prefix}
use enxame.Base.Exec.{Outcome, ok, err}
use enxame.Relay.Types.{
  Envelope, SessionManager, Error, buffer_size, target_not_connected, buffer_full,
}
use enxame.Relay.Sessions.{get_session}
use enxame.Relay.Forward.{try_send, send_to_session, broadcast_envelope, forward_envelope}
use enxame.Relay.Invariant.{IsSound}
use enxame.Relay.Delivery.{inbox, accepts}

-- What a sender is told about a single addressee.
abbrev pub direct_outcome : SessionManager → String → Outcome Error Unit
direct_outcome m n =
    if has n m.sessions
    then (if ltb (length (inbox m n)) buffer_size then ok tt else err buffer_full)
    else err target_not_connected

module _ (now : ℕ) (env : Envelope) (m : SessionManager) where
  -- An envelope whose sender is banned changes nothing, and its sender is not told that it was sent.
  pub forward_banned :
      has env.sender_node_id m.blacklist ≡ true
      → ((forward_envelope now env m).1 ≡ m) × ((forward_envelope now env m).0 ≢ ok tt)
  unfolding forward_envelope
  forward_banned h = ground arith

  pub forward_channel :
      has env.sender_node_id m.blacklist ≡ false
      → has_prefix env.target_node_id "#" ≡ true
      → forward_envelope now env m ≡ broadcast_envelope now env m
  unfolding forward_envelope
  forward_channel h k = ground (arith, h, k)

  module _ (v : IsSound m) (allowed : has env.sender_node_id m.blacklist ≡ false)
      (direct : has_prefix env.target_node_id "#" ≡ false)
      (long_sender : 8 ≤ len env.sender_node_id) (long_target : 8 ≤ len env.target_node_id) where
    -- In a sound state, for a sender that is not banned and a single addressee, with ids of eight bytes
    -- or more: the sender is told whether the addressee is connected and has room, the envelope goes
    -- to the end of that buffer exactly then and is counted, and every other buffer stays as it was.
    pub forward_direct :
        ((forward_envelope now env m).0 ≡ direct_outcome m env.target_node_id)
        × ((forward_envelope now env m).1.messages_relayed
            ≡ m.messages_relayed + (if accepts m env.target_node_id then 1 else 0))
        × ((n : String)
            → inbox (forward_envelope now env m).1 n ≡ (
                if env.target_node_id == n && accepts m n
                then inbox m n ++ env ∷ []
                else inbox m n))
    unfolding forward_envelope get_session send_to_session try_send
    forward_direct = elim (Option-cases (lookup env.target_node_id m.sessions)) [
      | inl absent ↦ (
        ground (arith, absent),
        ground (arith, absent),
        λ n. ground (arith, absent, eq_iff env.target_node_id n),
      )
      | inr (a, found) ↦ (
        ground (arith, found, v.live env.target_node_id a),
        ground (arith, found, v.live env.target_node_id a),
        λ n. elim (Option-cases (lookup n m.sessions)) [
          | inl absent ↦
              ground
                (arith, found, absent, eq_iff env.target_node_id n, v.live env.target_node_id a)
          | inr (b, there) ↦ ground (
            arith,
            found,
            there,
            v.live env.target_node_id a,
            v.live n b,
            eq_iff env.target_node_id n,
          )
        ],
      )
    ]
