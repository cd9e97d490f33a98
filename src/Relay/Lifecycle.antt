-- ===== src/Relay/Lifecycle.antt =====
-- Registration, replacement and removal of sessions: what succeeds, and what goes wrong.
use Prim.Native.Nat.{compare, Ordering, zero, suc}
use Prim.Native.String.{slice}
use text.Mathlib.TextPositions.{len-append}
use enxame.Base.{
  ℕ, ◌+◌, ◌%◌, ◌≤◌, ◌<◌, String, len, ◌≡◌, refl, Bool, true, false, List, [], ◌∷◌, Option, none,
  some, arith, length, Option-cases, inl, inr, eq_iff, eq_refl, if◌then◌else◌,
}
use enxame.Base.Text.{◌==◌, has_prefix}
use enxame.Base.Dict.{
  lookup, insert, delete, has, lookup-insert, lookup-delete, length-insert, length-delete,
}
use enxame.Base.Exec.{ok, err, panic}
use enxame.Relay.Types.{Envelope, Session, SessionManager, node_blacklisted}
use enxame.Relay.Sessions.{
  Clock, letters, random_hex, new_session, generate_session_id, register_session,
  unregister_session, get_session, add_to_blacklist,
}
use enxame.Relay.Forward.{try_send, forward_envelope}
use enxame.Relay.Invariant.{IsSound, register_session-IsSound}
use enxame.Relay.Delivery.{inbox}

module _ (c : Clock) (n : String) (pk : List ℕ) (m : SessionManager) where
  pub register_banned :
      has n m.blacklist ≡ true → register_session c n pk m ≡ (err node_blacklisted, m)
  unfolding register_session
  register_banned h = ground (arith, h)

  module _ (v : IsSound m) (allowed : has n m.blacklist ≡ false) (long : 8 ≤ len n)
      (stamped : 8 ≤ len (generate_session_id c)) where
    register_old :
        (old : Option ℕ)
        → lookup n m.sessions ≡ old
        → ((register_session c n pk m).0 ≡ ok m.next)
          × ((register_session c n pk m).1.heap m.next ≡ some (new_session c n pk))
          × ((register_session c n pk m).1.active_connections ≡ m.active_connections + 1)
          × ((register_session c n pk m).1.sessions ≡ insert n m.next (delete n m.sessions))
    unfolding register_session
    register_old none e = ground (arith, e)
    register_old (some a) e = ground (arith, e, v.live n a)

    -- In a sound state, for a node that is not banned and ids of eight bytes or more: the call returns
    -- a new session with an empty open buffer, on the map under the node's id in place of any older
    -- one; the other nodes keep theirs, and the counter of connections grows by one.
    pub register_ok :
        ((register_session c n pk m).0 ≡ ok m.next)
        × ((register_session c n pk m).1.heap m.next ≡ some (new_session c n pk))
        × ((register_session c n pk m).1.active_connections ≡ m.active_connections + 1)
        × ((k : String)
            → lookup k (register_session c n pk m).1.sessions
              ≡ (if n == k then some m.next else lookup k m.sessions))
    register_ok =
        let done = register_old (lookup n m.sessions) refl in
        (
          done.0,
          done.1,
          done.2,
          λ k. rw done.3 (simp (lookup-insert, lookup-delete) (ground arith)),
        )

    pub register_inbox :
        (k : String) → inbox (register_session c n pk m).1 k ≡ (if n == k then [] else inbox m k)
    unfolding register_session
    register_inbox k = elim (Option-cases (lookup n m.sessions)) [
      | inl absent ↦ elim (Option-cases (lookup k m.sessions)) [
        | inl none' ↦ ground (
          arith,
          allowed,
          absent,
          none',
          eq_iff n k,
          lookup-insert n k m.next (delete n m.sessions),
          lookup-delete n k m.sessions,
        )
        | inr (b, there) ↦ ground (
          arith,
          allowed,
          absent,
          there,
          v.live k b,
          eq_iff n k,
          lookup-insert n k m.next (delete n m.sessions),
          lookup-delete n k m.sessions,
        )
      ]
      | inr (a, found) ↦ elim (Option-cases (lookup k m.sessions)) [
        | inl none' ↦ ground (
          arith,
          allowed,
          found,
          none',
          v.live n a,
          eq_iff n k,
          lookup-insert n k m.next (delete n m.sessions),
          lookup-delete n k m.sessions,
        )
        | inr (b, there) ↦ ground (
          arith,
          allowed,
          found,
          there,
          v.live k b,
          v.live n a,
          eq_iff n k,
          lookup-insert n k m.next (delete n m.sessions),
          lookup-delete n k m.sessions,
        )
      ]
    ]

  -- A node that is not banned and has no session, under an id of fewer than eight bytes, gets its
  -- session on the map, and the call then panics.
  pub register_short :
      has n m.blacklist ≡ false
      → lookup n m.sessions ≡ none
      → len n < 8
      → ((register_session c n pk m).0 ≡ panic)
        × (lookup n (register_session c n pk m).1.sessions ≡ some m.next)
  unfolding register_session
  register_short h absent short =
      ground (arith, h, absent, lookup-insert n n m.next (delete n m.sessions), eq_refl n)

-- The end of a stream takes the node's session, whichever stream registered it.
pub unregister_lem :
    (n : String) (m : SessionManager) (a : ℕ) (s : Session)
    → IsSound m
    → 8 ≤ len n
    → lookup n m.sessions ≡ some a
    → m.heap a ≡ some s
    → ((unregister_session n m).0 ≡ ok tt)
      × (lookup n (unregister_session n m).1.sessions ≡ none)
      × ((unregister_session n m).1.heap a
          ≡ some (record s { send_chan = record s.send_chan { closed = true } }))
      × ((unregister_session n m).1.active_connections + 1 ≡ m.active_connections)
      × (length (unregister_session n m).1.sessions + 1 ≡ length m.sessions)
unfolding unregister_session
unregister_lem n m a s v long found at = ground (
  arith,
  found,
  at,
  v.live n a,
  v.counted,
  length-delete n m.sessions v.distinct,
  lookup-delete n n m.sessions,
  eq_refl n,
)

-- A sender that holds the session's address while the node is unregistered panics when it sends.
pub send_after_unregister :
    (env : Envelope) (n : String) (m : SessionManager) (a : ℕ)
    → IsSound m
    → 8 ≤ len n
    → lookup n m.sessions ≡ some a
    → (try_send env a (unregister_session n m).1).0 ≡ panic
unfolding try_send unregister_session
send_after_unregister env n m a v long found = ground (arith, found, v.live n a)

-- A ban of an id of fewer than eight bytes panics and leaves all sessions on the map.
pub ban_short :
    (now : ℕ) (n : String) (m : SessionManager)
    → len n < 8
    → ((add_to_blacklist now n m).0 ≡ panic) × ((add_to_blacklist now n m).1.sessions ≡ m.sessions)
unfolding add_to_blacklist
ban_short now n m short = ground arith

-- In a sound state, a ban of an id of eight bytes or more succeeds; that node is banned and has no
-- session, and all other nodes keep their ban or their session.
pub ban_lem :
    (now : ℕ) (n k : String) (m : SessionManager)
    → IsSound m
    → 8 ≤ len n
    → ((add_to_blacklist now n m).0 ≡ ok tt)
      × (has k (add_to_blacklist now n m).1.blacklist
          ≡ (if n == k then true else has k m.blacklist))
      × (lookup k (add_to_blacklist now n m).1.sessions
          ≡ (if n == k then none else lookup k m.sessions))
unfolding add_to_blacklist unregister_session
ban_lem now n k m v long = elim (Option-cases (lookup n m.sessions)) [
  | inl absent ↦
      ground (arith, absent, lookup-insert n k now m.blacklist, lookup-delete n k m.sessions)
  | inr (a, found) ↦
      ground
        (arith, found, v.live n a, lookup-insert n k now m.blacklist, lookup-delete n k m.sessions)
]

pub forward_unknown_short :
    (now : ℕ) (env : Envelope) (m : SessionManager)
    → has env.sender_node_id m.blacklist ≡ false
    → has_prefix env.target_node_id "#" ≡ false
    → lookup env.target_node_id m.sessions ≡ none
    → len env.target_node_id < 8
    → (forward_envelope now env m).0 ≡ panic
unfolding forward_envelope get_session
forward_unknown_short now env m allowed direct absent short =
    ground (arith, allowed, direct, absent)

module _ (c : Clock) (n : String) (pk : List ℕ) (m : SessionManager) (a : ℕ) (v : IsSound m)
    (allowed : has n m.blacklist ≡ false) (long : 8 ≤ len n)
    (stamped : 8 ≤ len (generate_session_id c)) (connected : lookup n m.sessions ≡ some a) where
  length_reconnected : length (register_session c n pk m).1.sessions ≡ length m.sessions
  length_reconnected =
      rw (register_old c n pk m v allowed long stamped (lookup n m.sessions) refl).3 (
        ground (
          arith,
          connected,
          eq_refl n,
          lookup-delete n n m.sessions,
          length-insert n m.next (delete n m.sessions),
          length-delete n m.sessions v.distinct,
        ))

  -- A node that is connected registers again, and one of its two streams ends: its new session is
  -- gone from the map with its channel closed, and the counter of connections is what it was before
  -- although the map has one session less.
  pub reconnect_leave :
      let m' = (register_session c n pk m).1 in
      let left = (unregister_session n m').1 in
      (lookup n left.sessions ≡ none)
      × (left.heap m.next
          ≡ some
              (record (new_session c n pk) { send_chan = record { buffer = []; closed = true } }))
      × (left.active_connections ≡ m.active_connections)
      × (length m.sessions ≡ length left.sessions + 1)
  reconnect_leave =
      let done = register_ok c n pk m v allowed long stamped in
      let m' = (register_session c n pk m).1 in
      let here : lookup n m'.sessions ≡ some m.next = ground (arith, done.3 n, eq_refl n) in
      let gone =
        unregister_lem n m' m.next (new_session c n pk) (register_session-IsSound c n pk m v) long
          here done.1 in
      (gone.1, gone.2, omega (arith, gone.3, done.2), omega (arith, gone.4, length_reconnected))

-- A digit of randomHex is one byte.
all_digits : ℕ → Bool
all_digits zero = true
all_digits (suc k) = elim (compare (len (slice letters k (k + 1))) 1) [
  | Ordering.eq ↦ all_digits k
  | _ ↦ false
]

all_digits_sound : (n k : ℕ) → all_digits n ≡ true → k < n → len (slice letters k (k + 1)) ≡ 1
unfolding all_digits
all_digits_sound zero k h lt = absurd (omega arith)
all_digits_sound (suc n) k h lt = ground (arith, all_digits_sound n k)

digits_table : all_digits 16 ≡ true
unfolding all_digits
digits_table = refl

len-random_hex : (ts : List ℕ) → len (random_hex ts) ≡ length ts
unfolding random_hex
len-random_hex [] = refl
len-random_hex (t ∷ ts) = omega (
  arith,
  len-append (slice letters (t % 16) (t % 16 + 1)) (random_hex ts),
  all_digits_sound 16 (t % 16) digits_table (omega arith),
  len-random_hex ts,
)

-- The id has the bytes of the time stamp and one for each digit asked for.
pub len-generate_session_id :
    (c : Clock) → len (generate_session_id c) ≡ len c.stamp + length c.nanos
unfolding generate_session_id
len-generate_session_id c =
    omega (arith, len-append c.stamp (random_hex c.nanos), len-random_hex c.nanos)
