-- ===== src/Relay/Forward.antt =====
-- The methods of SessionManager that move envelopes: channels, forwarding and broadcast.
use enxame.Base.{
  ℕ, ◌+◌, String, Bool, true, false, List, [], ◌∷◌, ◌++◌, Option, none, some, ltb, if◌then◌else◌,
  length,
}
use enxame.Base.Text.{◌==◌}
use enxame.Base.Dict.{Dict, lookup, insert, delete, keys}
use enxame.Base.Exec.{ok, panic, ◌>>=◌, ◌>>◌, pure, fail, gets, modify, log_id}
use enxame.Base.Text.{has_prefix}
use enxame.Relay.Types.{
  Envelope, Session, SessionManager, buffer_size, node_blacklisted, target_not_connected,
  buffer_full,
}
use enxame.Relay.Sessions.{Relay, update, get_session, is_blacklisted}

abbrev or_new : Option (Dict Bool) → Dict Bool
or_new none = []
or_new (some d) = d

unfoldable pub subscribe_to_channel : String → String → Relay Unit
subscribe_to_channel node_id channel_id = do
  modify (λ m. record m {
    channels =
        insert channel_id (insert node_id true (or_new (lookup channel_id m.channels))) m.channels;
  })
  log_id node_id

unsubscribe_found : String → String → Option (Dict Bool) → Relay Unit
unsubscribe_found node_id channel_id none = pure tt
unsubscribe_found node_id channel_id (some d) = do
  modify (λ m. record m { channels = insert channel_id (delete node_id d) m.channels })
  log_id node_id

unfoldable pub unsubscribe_from_channel : String → String → Relay Unit
unfolding unsubscribe_found
unsubscribe_from_channel node_id channel_id = do
  found ← gets (λ m. lookup channel_id m.channels)
  unsubscribe_found node_id channel_id found

-- select { case session.SendChan <- envelope: ... default: ... }. A send on a closed channel
-- panics, and a full buffer takes the default.
send_session : Envelope → ℕ → Option Session → Relay Bool
send_session env a none m = (panic, m)
send_session env a (some s) m =
    if s.send_chan.closed
    then (panic, m)
    else if ltb (length s.send_chan.buffer) buffer_size
    then (
      ok true,
      record m {
        heap = update m.heap a (record s {
          send_chan = record s.send_chan { buffer = s.send_chan.buffer ++ env ∷ [] };
        });
      },
    )
    else (ok false, m)

unfoldable pub try_send : Envelope → ℕ → Relay Bool
unfolding send_session
try_send env a m = send_session env a (m.heap a) m

abbrev pub node_id_at : ℕ → SessionManager → String
node_id_at a m = elim (m.heap a) [ none ↦ "" | some s ↦ s.node_id ]

unfoldable pub send_to_session : ℕ → Envelope → Relay Unit
send_to_session a env = do
  sent ← try_send env a
  target ← gets (node_id_at a)
  if sent
      then (do
        modify (λ m. record m { messages_relayed = m.messages_relayed + 1 })
        log_id env.sender_node_id
        log_id target)
      else (do log_id target; fail buffer_full)

-- One subscriber: the number of copies that were queued.
deliver_found : Envelope → Option ℕ → Relay ℕ
deliver_found env none = pure 0
deliver_found env (some a) = do sent ← try_send env a; pure (if sent then 1 else 0)

unfoldable pub deliver : ℕ → Envelope → String → Relay ℕ
unfolding deliver_found
deliver now env target =
    if target == env.sender_node_id
    then pure 0
    else do found ← get_session now target; deliver_found env found

unfoldable pub deliver_all : ℕ → Envelope → List String → ℕ → Relay ℕ
deliver_all now env [] count = pure count
deliver_all now env (target ∷ rest) count = do
  sent ← deliver now env target
  deliver_all now env rest (count + sent)

broadcast_found : ℕ → Envelope → Option (Dict Bool) → Relay Unit
broadcast_found now env none = pure tt
broadcast_found now env (some subscribers) = do
  count ← deliver_all now env (keys subscribers) 0
  modify (λ m. record m { messages_relayed = m.messages_relayed + count })

unfoldable pub broadcast_envelope : ℕ → Envelope → Relay Unit
unfolding broadcast_found
broadcast_envelope now env = do
  found ← gets (λ m. lookup env.target_node_id m.channels)
  broadcast_found now env found

-- The session of a single addressee.
unfoldable pub forward_found : Envelope → Option ℕ → Relay Unit
forward_found env none = do log_id env.target_node_id; fail target_not_connected
forward_found env (some a) = send_to_session a env

reject_if : Bool → Envelope → Relay Unit
reject_if true env = do log_id env.sender_node_id; fail node_blacklisted
reject_if false env = pure tt

unfoldable pub forward_envelope : ℕ → Envelope → Relay Unit
unfolding forward_found reject_if is_blacklisted
forward_envelope now env = do
  banned ← gets (is_blacklisted env.sender_node_id)
  reject_if banned env
  if has_prefix env.target_node_id "#"
      then broadcast_envelope now env
      else do target ← get_session now env.target_node_id; forward_found env target
