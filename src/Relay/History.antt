-- ===== src/Relay/History.antt =====
-- The session manager through any sequence of calls.
use enxame.Base.{
  ℕ, ◌≤◌, String, len, List, [], ◌∷◌, Option, none, some, arith, All, length-append, Option-cases,
  Bool-cases, inl, inr, ltb,
}
use enxame.Base.Dict.{lookup, keys, has}
use enxame.Base.Text.{has_prefix}
use enxame.Base.Exec.{carry-keeps}
use enxame.Relay.Types.{Envelope, SessionManager, new_session_manager}
use enxame.Relay.Sessions.{
  Clock, register_session, unregister_session, get_session, add_to_blacklist, remove_from_blacklist,
}
use enxame.Relay.Forward.{
  subscribe_to_channel, unsubscribe_from_channel, try_send, send_to_session, deliver_all,
  broadcast_envelope, forward_found, forward_envelope,
}
use enxame.Relay.Invariant.{
  IsSound, register_session-IsSound, unregister_session-IsSound, get_session-IsSound,
  add_to_blacklist-IsSound, remove_from_blacklist-IsSound, subscribe_to_channel-IsSound,
  unsubscribe_from_channel-IsSound, deliver_all-IsSound,
}
use enxame.Relay.Routing.{forward_banned, forward_channel}

relayed-IsSound :
    (k : ℕ) (m : SessionManager) → IsSound m → IsSound (record m { messages_relayed = k })
relayed-IsSound k m v = record {
  live = v.live;
  unbanned = v.unbanned;
  distinct = v.distinct;
  counted = v.counted;
  subscribers = v.subscribers;
}

send_to_session-IsSound :
    (a : ℕ) (env : Envelope) (m : SessionManager) → IsSound m → IsSound (send_to_session a env m).1
unfolding send_to_session try_send
send_to_session-IsSound a env m v = record {
  live = λ k b e. elim (Option-cases (m.heap a)) [
    | inl absent ↦ ground (arith, v.live k b, absent)
    | inr (s, at) ↦ ground (arith, v.live k b, at, length-append s.send_chan.buffer (env ∷ []))
  ];
  unbanned = λ k h. ground (arith, v.unbanned k);
  distinct = ground (arith, v.distinct);
  counted = ground (arith, v.counted);
  subscribers = λ c d e. v.subscribers c d (ground arith);
}

broadcast_envelope-IsSound :
    (now : ℕ) (env : Envelope) (m : SessionManager)
    → IsSound m
    → IsSound (broadcast_envelope now env m).1
unfolding broadcast_envelope
broadcast_envelope-IsSound now env m v =
    elim (Option-cases (lookup env.target_node_id m.channels)) [
      | inl absent ↦ rw absent v
      | inr (d, found) ↦ rw found (
          carry-keeps IsSound (deliver_all now env (keys d) 0 m).0 _
            (deliver_all now env (keys d) 0 m).1 (deliver_all-IsSound now env (keys d) 0 m v)
            (λ k w. relayed-IsSound _ _ w))
    ]

forward_found-IsSound :
    (env : Envelope) (o : Option ℕ) (m : SessionManager)
    → IsSound m
    → IsSound (forward_found env o m).1
unfolding forward_found
forward_found-IsSound env none m v = elim (Bool-cases (ltb (len env.target_node_id) 8)) [
  | inl short ↦ rw short v
  | inr long ↦ rw long v
]
forward_found-IsSound env (some a) m v = send_to_session-IsSound a env m v

pub forward_envelope-IsSound :
    (now : ℕ) (env : Envelope) (m : SessionManager)
    → IsSound m
    → IsSound (forward_envelope now env m).1
unfolding forward_envelope
forward_envelope-IsSound now env m v = elim (Bool-cases (has env.sender_node_id m.blacklist)) [
  | inl banned ↦ rw ((forward_banned now env m banned).0) v
  | inr allowed ↦ elim (Bool-cases (has_prefix env.target_node_id "#")) [
    | inl channel ↦
        rw (forward_channel now env m allowed channel) (broadcast_envelope-IsSound now env m v)
    | inr direct ↦
        rw (allowed, direct)
          (carry-keeps IsSound (get_session now env.target_node_id m).0 _
            (get_session now env.target_node_id m).1
            (get_session-IsSound now env.target_node_id m v)
            (λ o w. forward_found-IsSound env o _ w))
  ]
]

-- The calls that the server makes, with what the machine supplies to each.
pub data Call : Type 0 where
  registers : Clock → String → List ℕ → Call
  unregisters unbans : String → Call
  gets bans : ℕ → String → Call
  subscribes unsubscribes : String → String → Call
  forwards : ℕ → Envelope → Call

unfoldable pub step : SessionManager → Call → SessionManager
step m (registers c n pk) = (register_session c n pk m).1
step m (unregisters n) = (unregister_session n m).1
step m (unbans n) = (remove_from_blacklist n m).1
step m (gets now n) = (get_session now n m).1
step m (bans now n) = (add_to_blacklist now n m).1
step m (subscribes n c) = (subscribe_to_channel n c m).1
step m (unsubscribes n c) = (unsubscribe_from_channel n c m).1
step m (forwards now env) = (forward_envelope now env m).1

unfoldable pub run : SessionManager → List Call → SessionManager
run m [] = m
run m (c ∷ cs) = run (step m c) cs

-- The ids that are banned have eight bytes or more; nothing is asked of the other calls.
abbrev pub BansLongId : Call → Type 0
BansLongId (bans now n) = 8 ≤ len n
BansLongId _ = Unit

step-IsSound : (m : SessionManager) (c : Call) → BansLongId c → IsSound m → IsSound (step m c)
unfolding step
step-IsSound m (registers c n pk) h v = register_session-IsSound c n pk m v
step-IsSound m (unregisters n) h v = unregister_session-IsSound n m v
step-IsSound m (unbans n) h v = remove_from_blacklist-IsSound n m v
step-IsSound m (gets now n) h v = get_session-IsSound now n m v
step-IsSound m (bans now n) h v = add_to_blacklist-IsSound now n m h v
step-IsSound m (subscribes n c) h v = subscribe_to_channel-IsSound n c m v
step-IsSound m (unsubscribes n c) h v = unsubscribe_from_channel-IsSound n c m v
step-IsSound m (forwards now env) h v = forward_envelope-IsSound now env m v

run-IsSound :
    (m : SessionManager) (cs : List Call) → All BansLongId cs → IsSound m → IsSound (run m cs)
unfolding run
run-IsSound m [] h v = v
run-IsSound m (c ∷ cs) h v = run-IsSound (step m c) cs h.1 (step-IsSound m c h.0 v)

new-IsSound : IsSound new_session_manager
unfolding new_session_manager lookup
new-IsSound = record {
  live = λ k a e. cc;
  unbanned = λ k h. cc;
  distinct = tt;
  counted = omega arith;
  subscribers = λ c d e. cc;
}

-- After any calls in which the banned ids have eight bytes or more, every session on the map is an
-- open one of its own node with at most a hundred envelopes, no banned node has a session, no key
-- stands twice, and the counter of connections is at least the number of sessions.
pub run-new-IsSound : (cs : List Call) → All BansLongId cs → IsSound (run new_session_manager cs)
run-new-IsSound cs h = run-IsSound new_session_manager cs h new-IsSound
