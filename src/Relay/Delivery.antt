-- ===== src/Relay/Delivery.antt =====
-- What forwarding does to the buffers of the connected nodes.
use enxame.Base.{
  ℕ, ◌+◌, String, ◌≡◌, refl, Bool, true, false, not, ◌&&◌, List, [], ◌∷◌, ◌++◌, Option, none, some,
  arith, eq_iff, length, Option-cases, ltb, if◌then◌else◌, inl, inr,
}
use enxame.Base.Dict.{Dict, lookup, has, keys, Distinct}
use enxame.Base.Text.{◌==◌}
use enxame.Base.Exec.{ok}
use enxame.Relay.Types.{Envelope, Session, SessionManager, buffer_size}
use enxame.Relay.Sessions.{get_session}
use enxame.Relay.Forward.{try_send, deliver, deliver_all, broadcast_envelope}
use enxame.Relay.Invariant.{IsSound, deliver-IsSound}

abbrev pub buffer_of : Option Session → List Envelope
buffer_of none = []
buffer_of (some s) = s.send_chan.buffer

abbrev inbox_at : (ℕ → Option Session) → Option ℕ → List Envelope
inbox_at heap none = []
inbox_at heap (some a) = buffer_of (heap a)

-- The envelopes that wait for a node.
abbrev pub inbox : SessionManager → String → List Envelope
inbox m n = inbox_at m.heap (lookup n m.sessions)

-- A node that is connected, with room in its buffer.
abbrev pub accepts : SessionManager → String → Bool
accepts m n = has n m.sessions && ltb (length (inbox m n)) buffer_size

abbrev takes : Envelope → SessionManager → String → Bool
takes env m n = not (n == env.sender_node_id) && accepts m n

-- Delivery to one subscriber: who gets the copy, and what is counted.
deliver_outcome :
    (now : ℕ) (env : Envelope) (t : String) (m : SessionManager)
    → IsSound m
    → (deliver now env t m).0 ≡ ok (if takes env m t then 1 else 0)
unfolding deliver get_session try_send
deliver_outcome now env t m v = elim (Option-cases (lookup t m.sessions)) [
  | inl absent ↦ ground (arith, absent)
  | inr (a, found) ↦ ground (arith, found, v.live t a)
]

inbox-deliver :
    (now : ℕ) (env : Envelope) (t n : String) (m : SessionManager)
    → IsSound m
    → inbox (deliver now env t m).1 n
      ≡ (if t == n && takes env m t then inbox m n ++ env ∷ [] else inbox m n)
unfolding deliver get_session try_send
inbox-deliver now env t n m v = elim (Option-cases (lookup t m.sessions)) [
  | inl absent ↦ ground (arith, absent, eq_iff t n)
  | inr (a, found) ↦ elim (Option-cases (lookup n m.sessions)) [
    | inl absent ↦ ground (arith, found, absent, eq_iff t n)
    | inr (b, there) ↦ ground (arith, found, there, v.live t a, v.live n b, eq_iff t n)
  ]
]

deliver_frame :
    (now : ℕ) (env : Envelope) (t : String) (m : SessionManager)
    → ((deliver now env t m).1.sessions ≡ m.sessions)
      × ((deliver now env t m).1.messages_relayed ≡ m.messages_relayed)
      × ((deliver now env t m).1.channels ≡ m.channels)
unfolding deliver get_session try_send
deliver_frame now env t m = ground arith

takes_after :
    (now : ℕ) (env : Envelope) (t n : String) (m : SessionManager)
    → IsSound m
    → (t == n) ≡ false
    → takes env (deliver now env t m).1 n ≡ takes env m n
takes_after now env t n m v e =
    ground (arith, e, inbox-deliver now env t n m v, deliver_frame now env t m)

-- The number of keys that pass a test.
abbrev pub count_keys {ℓ} : {V : Type ℓ} → (String → Bool) → Dict V → ℕ
count_keys p [] = 0
count_keys p ((k, v) ∷ d) = (if p k then 1 else 0) + count_keys p d

count_keys-congr {ℓ} :
    {V : Type ℓ} (p q : String → Bool) (d : Dict V)
    → ((k : String) → has k d ≡ true → p k ≡ q k)
    → count_keys p d ≡ count_keys q d
unfolding lookup
count_keys-congr p q [] h = refl
count_keys-congr p q ((k, v) ∷ d) h =
    ground
      (arith, h k (ground (arith, eq_iff k k)), count_keys-congr p q d (λ j e. h j (ground arith)))

key_ne {ℓ} :
    {V : Type ℓ} (t k : String) (d : Dict V) → has t d ≡ false → has k d ≡ true → (t == k) ≡ false
key_ne t k d p q = ground (arith, eq_iff t k)

deliver_all_outcome :
    (now : ℕ) (env : Envelope) (d : Dict Bool) (c : ℕ) (m : SessionManager)
    → Distinct d
    → IsSound m
    → (deliver_all now env (keys d) c m).0 ≡ ok (c + count_keys (takes env m) d)
unfolding deliver_all
deliver_all_outcome now env [] c m ds v = ground arith
deliver_all_outcome now env ((t, w) ∷ d) c m ds v =
    let m' = (deliver now env t m).1 in
    let ih =
      deliver_all_outcome now env d (c + (if takes env m t then 1 else 0)) m' ds.1
        (deliver-IsSound now env t m v) in
    let same =
      count_keys-congr (takes env m') (takes env m) d
        (λ k e. takes_after now env t k m v (key_ne t k d ds.0 e)) in
    rw (deliver_outcome now env t m v) (ground (arith, ih, same))

deliver_all_frame :
    (now : ℕ) (env : Envelope) (ts : List String) (c : ℕ) (m : SessionManager)
    → IsSound m
    → ((deliver_all now env ts c m).1.messages_relayed ≡ m.messages_relayed)
      × ((deliver_all now env ts c m).1.sessions ≡ m.sessions)
unfolding deliver_all
deliver_all_frame now env [] c m v = (refl, refl)
deliver_all_frame now env (t ∷ ts) c m v =
    let m' = (deliver now env t m).1 in
    let k : ℕ = if takes env m t then 1 else 0 in
    ground (
      arith,
      deliver_outcome now env t m v,
      deliver_frame now env t m,
      deliver_all_frame now env ts (c + k) m' (deliver-IsSound now env t m v),
    )

inbox-deliver_all :
    (now : ℕ) (env : Envelope) (d : Dict Bool) (c : ℕ) (n : String) (m : SessionManager)
    → Distinct d
    → IsSound m
    → inbox (deliver_all now env (keys d) c m).1 n
      ≡ (if has n d && takes env m n then inbox m n ++ env ∷ [] else inbox m n)
unfolding deliver_all lookup
inbox-deliver_all now env [] c n m ds v = refl
inbox-deliver_all now env ((t, w) ∷ d) c n m ds v =
    let m' = (deliver now env t m).1 in
    let k : ℕ = if takes env m t then 1 else 0 in
    ground (
      arith,
      deliver_outcome now env t m v,
      inbox-deliver now env t n m v,
      takes_after now env t n m v,
      eq_iff t n,
      inbox-deliver_all now env d (c + k) n m' ds.1 (deliver-IsSound now env t m v),
    )

abbrev pub subscribers_of : SessionManager → String → Dict Bool
subscribers_of m c = elim (lookup c m.channels) [ none ↦ [] | some d ↦ d ]

module _ (now : ℕ) (env : Envelope) (m : SessionManager) (v : IsSound m) where
  -- In a sound state a broadcast succeeds; each subscriber that is not the sender, is connected and
  -- has room gets one copy at the end of its buffer, every other buffer stays as it was, and the
  -- counter of relayed messages grows by the number of the copies.
  pub broadcast_lem :
      ((broadcast_envelope now env m).0 ≡ ok tt)
      × ((broadcast_envelope now env m).1.messages_relayed
          ≡ m.messages_relayed + count_keys (takes env m) (subscribers_of m env.target_node_id))
      × ((n : String)
          → inbox (broadcast_envelope now env m).1 n ≡ (
              if has n (subscribers_of m env.target_node_id) && takes env m n
              then inbox m n ++ env ∷ []
              else inbox m n))
  unfolding broadcast_envelope lookup
  broadcast_lem = elim (Option-cases (lookup env.target_node_id m.channels)) [
    | inl absent ↦ (ground (arith, absent), ground (arith, absent), λ n. ground (arith, absent))
    | inr (d, found) ↦
        let ds = v.subscribers env.target_node_id d found in
        let done = deliver_all_outcome now env d 0 m ds v in
        (
          ground (arith, found, done),
          ground (arith, found, done, deliver_all_frame now env (keys d) 0 m v),
          λ n. ground (arith, found, done, inbox-deliver_all now env d 0 n m ds v),
        )
  ]
