-- ===== src/Relay/Invariant.antt =====
-- What holds of the session manager between two calls.
use enxame.Base.{
  ℕ, ◌+◌, ◌≤◌, ◌<◌, String, len, ◌≡◌, Bool, true, false, List, [], ◌∷◌, Option, none, some, arith,
  eq_iff, length, length-append, inl, inr, Option-cases,
}
use enxame.Base.Dict.{
  Dict, lookup, insert, delete, has, Distinct, lookup-insert, lookup-delete, insert-Distinct,
  delete-Distinct, length-insert, length-delete,
}
use enxame.Base.Exec.{carry-keeps}
use enxame.Relay.Types.{Envelope, Session, SessionManager, buffer_size}
use enxame.Relay.Forward.{
  subscribe_to_channel, unsubscribe_from_channel, try_send, deliver, deliver_all,
}
use enxame.Relay.Sessions.{
  Clock, register_session, unregister_session, get_session, add_to_blacklist, remove_from_blacklist,
}

-- A session that is on the map under its own name, open, and within its buffer.
abbrev pub SessionOk : String → Option Session → Type 0
SessionOk n none = ⊥
SessionOk n (some s) =
    (s.node_id ≡ n) × (s.send_chan.closed ≡ false) × (length s.send_chan.buffer ≤ buffer_size)

pub record IsSound (m : SessionManager) : Type 0 where
  pub live :
      (n : String) (a : ℕ) → lookup n m.sessions ≡ some a → (a < m.next) × SessionOk n (m.heap a)
  pub unbanned : (n : String) → has n m.blacklist ≡ true → lookup n m.sessions ≡ none
  pub distinct : Distinct m.sessions
  pub counted : length m.sessions ≤ m.active_connections
  pub subscribers : (c : String) (d : Dict Bool) → lookup c m.channels ≡ some d → Distinct d

pub get_session-IsSound :
    (now : ℕ) (n : String) (m : SessionManager) → IsSound m → IsSound (get_session now n m).1
unfolding get_session
get_session-IsSound now n m v = record {
  live = λ k a e. ground (arith, v.live k a, v.live n a);
  unbanned = λ k h. ground (arith, v.unbanned k);
  distinct = ground (arith, v.distinct);
  counted = ground (arith, v.counted);
  subscribers = λ c' d e. v.subscribers c' d (ground arith);
}

pub register_session-IsSound :
    (c : Clock) (n : String) (pk : List ℕ) (m : SessionManager)
    → IsSound m
    → IsSound (register_session c n pk m).1
unfolding register_session
register_session-IsSound c n pk m v = record {
  live = λ k a e. ground (
    arith,
    v.live k a,
    v.live n a,
    eq_iff n k,
    lookup-insert n k m.next (delete n m.sessions),
    lookup-delete n k m.sessions,
  );
  unbanned = λ k h. ground (
    arith,
    v.unbanned k,
    lookup-insert n k m.next (delete n m.sessions),
    lookup-delete n k m.sessions,
    eq_iff n k,
  );
  distinct = ground (
    arith,
    insert-Distinct n m.next (delete n m.sessions),
    delete-Distinct n m.sessions v.distinct,
  );
  counted =
      ground (
        arith,
        length-insert n m.next (delete n m.sessions),
        length-delete n m.sessions v.distinct,
      );
  subscribers = λ c' d e. v.subscribers c' d (ground arith);
}

pub unregister_session-IsSound :
    (n : String) (m : SessionManager) → IsSound m → IsSound (unregister_session n m).1
unfolding unregister_session
unregister_session-IsSound n m v = record {
  live = λ k a e. ground (arith, v.live k a, v.live n a, eq_iff n k, lookup-delete n k m.sessions);
  unbanned = λ k h. ground (arith, v.unbanned k, lookup-delete n k m.sessions);
  distinct = ground (arith, delete-Distinct n m.sessions v.distinct);
  counted = ground (arith, length-delete n m.sessions v.distinct);
  subscribers = λ c' d e. v.subscribers c' d (ground arith);
}

pub add_to_blacklist-IsSound :
    (now : ℕ) (n : String) (m : SessionManager)
    → 8 ≤ len n
    → IsSound m
    → IsSound (add_to_blacklist now n m).1
unfolding add_to_blacklist unregister_session
add_to_blacklist-IsSound now n m long v = record {
  live = λ k a e. ground (arith, v.live k a, v.live n a, eq_iff n k, lookup-delete n k m.sessions);
  unbanned = λ k h.
      ground (arith, v.unbanned k, lookup-delete n k m.sessions, lookup-insert n k now m.blacklist);
  distinct = ground (arith, delete-Distinct n m.sessions v.distinct);
  counted = ground (arith, length-delete n m.sessions v.distinct);
  subscribers = λ c' d e. v.subscribers c' d (ground arith);
}

pub remove_from_blacklist-IsSound :
    (n : String) (m : SessionManager) → IsSound m → IsSound (remove_from_blacklist n m).1
unfolding remove_from_blacklist
remove_from_blacklist-IsSound n m v = record {
  live = λ k a e. ground (arith, v.live k a);
  unbanned = λ k h. ground (arith, v.unbanned k, lookup-delete n k m.blacklist);
  distinct = ground (arith, v.distinct);
  counted = ground (arith, v.counted);
  subscribers = λ c' d e. v.subscribers c' d (ground arith);
}

pub subscribe_to_channel-IsSound :
    (n c : String) (m : SessionManager) → IsSound m → IsSound (subscribe_to_channel n c m).1
unfolding subscribe_to_channel
subscribe_to_channel-IsSound n c m v = record {
  live = λ k a e. ground (arith, v.live k a);
  unbanned = λ k h. ground (arith, v.unbanned k);
  distinct = ground (arith, v.distinct);
  counted = ground (arith, v.counted);
  subscribers = λ c' d e. elim (Option-cases (lookup c m.channels)) [
    | inl absent ↦ ground (
      arith,
      v.subscribers c' d,
      eq_iff c c',
      absent,
      lookup-insert c c' (insert n true []) m.channels,
      insert-Distinct n true [] tt,
    )
    | inr (old, found) ↦ ground (
      arith,
      v.subscribers c' d,
      v.subscribers c old,
      eq_iff c c',
      found,
      lookup-insert c c' (insert n true old) m.channels,
      insert-Distinct n true old,
    )
  ];
}

pub unsubscribe_from_channel-IsSound :
    (n c : String) (m : SessionManager) → IsSound m → IsSound (unsubscribe_from_channel n c m).1
unfolding unsubscribe_from_channel
unsubscribe_from_channel-IsSound n c m v = record {
  live = λ k a e. ground (arith, v.live k a);
  unbanned = λ k h. ground (arith, v.unbanned k);
  distinct = ground (arith, v.distinct);
  counted = ground (arith, v.counted);
  subscribers = λ c' d e. elim (Option-cases (lookup c m.channels)) [
    | inl absent ↦ ground (arith, v.subscribers c' d, absent)
    | inr (old, found) ↦ ground (
      arith,
      v.subscribers c' d,
      v.subscribers c old,
      eq_iff c c',
      found,
      lookup-insert c c' (delete n old) m.channels,
      delete-Distinct n old,
    )
  ];
}

pub try_send-IsSound :
    (env : Envelope) (a : ℕ) (m : SessionManager) → IsSound m → IsSound (try_send env a m).1
unfolding try_send
try_send-IsSound env a m v = record {
  live = λ k b e. elim (Option-cases (m.heap a)) [
    | inl none' ↦ ground (arith, v.live k b)
    | inr (s, at) ↦ ground (arith, v.live k b, at, length-append s.send_chan.buffer (env ∷ []))
  ];
  unbanned = λ k h. ground (arith, v.unbanned k);
  distinct = ground (arith, v.distinct);
  counted = ground (arith, v.counted);
  subscribers = λ c d e. v.subscribers c d (ground arith);
}

pub deliver-IsSound :
    (now : ℕ) (env : Envelope) (t : String) (m : SessionManager)
    → IsSound m
    → IsSound (deliver now env t m).1
unfolding deliver get_session try_send
deliver-IsSound now env t m v = record {
  live = λ k b e. elim (Option-cases (lookup t m.sessions)) [
    | inl absent ↦ ground (arith, v.live k b, absent)
    | inr (a, found) ↦ elim (Option-cases (m.heap a)) [
      | inl none' ↦ ground (arith, v.live k b, found, none')
      | inr (s, at) ↦
          ground (arith, v.live k b, found, at, length-append s.send_chan.buffer (env ∷ []))
    ]
  ];
  unbanned = λ k h. ground (arith, v.unbanned k);
  distinct = ground (arith, v.distinct);
  counted = ground (arith, v.counted);
  subscribers = λ c d e. v.subscribers c d (ground arith);
}

pub deliver_all-IsSound :
    (now : ℕ) (env : Envelope) (ts : List String) (c : ℕ) (m : SessionManager)
    → IsSound m
    → IsSound (deliver_all now env ts c m).1
unfolding deliver_all
deliver_all-IsSound now env [] c m v = v
deliver_all-IsSound now env (t ∷ ts) c m v =
    carry-keeps IsSound (deliver now env t m).0 _ (deliver now env t m).1
      (deliver-IsSound now env t m v) (λ k w. deliver_all-IsSound now env ts (c + k) _ w)
