-- ===== src/Nodes/Moderation/Exclusion.antt =====
-- From a ban to what the banned node is told.
use enxame.Base.{
  ℕ, String, ◌≡◌, refl, sym, ◌∙◌, subst, Bool, true, false, List, Option, none, some, arith,
  eq_refl, Option-cases, inl, inr, All,
}
use enxame.Base.Dict.{Dict, lookup, lookup-insert, has}
use enxame.Base.Exec.{Outcome, ok, err, panic, Exec, carry, ◌>>◌}
use enxame.Crypto.{verify_node_identity}
use enxame.Nodes.Types.{Node, Registration, ModerationAction, CoreError}
use enxame.Nodes.Redis.{RedisLaws, IsAbsent}
use enxame.Nodes.Manager.{node_key, remove_node, publish_moderation_event, find_node}
use enxame.Nodes.Database.{Machine, is_over, ban_node, save_moderation_action}
use enxame.Nodes.Service.{
  World, Platform, Service, check_identity, check_ban, admit, refuse_missing, register_node,
  heartbeat, refresh,
}
use enxame.Nodes.Moderation.{Signing, moderate_node, verify_action, ban_of, ban_event, expiry}
use enxame.Nodes.Moderation.Bans.{IsBannedRow, publish-IsAbsent}
use enxame.Nodes.Moderation.Safety.{
  Call, run, IsKeptOut, LeavesBan, run-IsKeptOut, check_ban_refuses,
}

abbrev pub is_ok : {A : Type 0} → Outcome CoreError A → Bool
is_ok (ok a) = true
is_ok _ = false

is_ok-carry :
    {S A B : Type 0} (o : Outcome CoreError A) (f : A → Exec S CoreError B) (s : S)
    → ((a : A) → o ≡ ok a → is_ok (f a s).0 ≡ false)
    → is_ok (carry o f s).0 ≡ false
is_ok-carry (ok a) f s h = h a refl
is_ok-carry (err e) f s h = refl
is_ok-carry panic f s h = refl

module _ {Store : Type 0} (p : Platform Store) (signing : Signing)
    (master_keys : Dict (List ℕ)) where
  remove_node-IsAbsent :
      (laws : RedisLaws p.redis) (now : ℕ) (id : String) (s : Store)
      → ((k : String) (s : Store) → (p.redis.del k s).0 ≡ true)
      → IsAbsent p.redis (node_key id) (remove_node p.redis p.json now id s).1
  unfolding remove_node
  remove_node-IsAbsent laws now id s dels = laws.del_absent (node_key id) _ (dels (node_key id) _)

  module _ (machine : Machine) (event : String) (a : ModerationAction) (w : World Store)
      (done : (moderate_node p signing master_keys machine event a w).0 ≡ ok tt) where
    ban_after : (ban_node machine (ban_of p signing master_keys machine.now a) w.db).0 ≡ ok tt
    unfolding moderate_node verify_action
    ban_after = ground (arith, done)

    nodes_after :
        (moderate_node p signing master_keys machine event a w).1.db.nodes
        ≡ (ban_node machine (ban_of p signing master_keys machine.now a) w.db).1.nodes
    unfolding moderate_node verify_action save_moderation_action ban_node
    nodes_after = ground (arith, done)

    store_after :
        (moderate_node p signing master_keys machine event a w).1.store
        ≡ (publish_moderation_event p.redis p.json
            (ban_event p signing master_keys machine event a)
            (remove_node p.redis p.json machine.now a.target_id w.store).1).1
    unfolding moderate_node verify_action
    store_after = ground (arith, done)

    IsBannedRow-after :
        has a.target_id w.db.nodes ≡ true
        → IsBannedRow
            (expiry machine.now a.duration)
            (lookup a.target_id (moderate_node p signing master_keys machine event a w).1.db.nodes)
    unfolding ban_node
    IsBannedRow-after known = elim (Option-cases (lookup a.target_id w.db.nodes)) [
      | inl absent ↦ ground (arith, known, absent)
      | inr (r, found) ↦
          subst (λ d. IsBannedRow (expiry machine.now a.duration) (lookup a.target_id d))
            (sym nodes_after)
            (ground (
              arith,
              found,
              ban_after,
              eq_refl a.target_id,
              lookup-insert a.target_id a.target_id
                  (record r {
                    banned = true;
                    ban_reason = some a.reason;
                    ban_expires_at = expiry machine.now a.duration;
                  })
                  w.db.nodes,
            ))
    ]

    moderate_node-IsKeptOut :
        RedisLaws p.redis
        → ((k : String) (s : Store) → (p.redis.del k s).0 ≡ true)
        → has a.target_id w.db.nodes ≡ true
        → IsKeptOut p signing master_keys a.target_id
            (expiry machine.now a.duration)
            (moderate_node p signing master_keys machine event a w).1
    moderate_node-IsKeptOut laws dels known = record {
      banned = IsBannedRow-after known;
      absent = subst (IsAbsent p.redis (node_key a.target_id)) (sym store_after) (
          publish-IsAbsent p.redis p.json laws (ban_event p signing master_keys machine event a)
            a.target_id _ (remove_node-IsAbsent laws machine.now a.target_id w.store dels));
    }

  module _ (laws : RedisLaws p.redis) (id : String) (until : Option ℕ) (w : World Store)
      (kept : IsKeptOut p signing master_keys id until w) (machine : Machine)
      (before : is_over machine.now until ≡ false) where
    after_refusal :
        {A : Type 0} (f : Unit → Service p A)
        → is_ok (carry (check_ban p machine id w).0 f (check_ban p machine id w).1).0 ≡ false
    after_refusal f = is_ok-carry (check_ban p machine id w).0 f _ (λ u e.
        absurd (check_ban_refuses p signing master_keys laws id until machine w before kept e))

    identity_state : (reg : Registration) → (check_identity p reg w).1 ≡ w
    identity_state reg =
        elim (Option-cases (
          verify_node_identity p.crypto reg.identity.node_id reg.identity.public_key
            reg.identity.signature)) [
              | inl good ↦ rw (good, check_identity) refl
              | inr (x, bad) ↦ rw (bad, check_identity) refl
            ]

    register_refused :
        (reg : Registration)
        → reg.identity.node_id ≡ id
        → is_ok (register_node p machine reg w).0 ≡ false
    unfolding register_node
    register_refused reg e = is_ok-carry (check_identity p reg w).0 _ _ (λ _ _.
        subst
          (λ s.
            is_ok ((check_ban p machine reg.identity.node_id >> admit p machine reg) s).0 ≡ false)
          (sym (identity_state reg))
          (subst (λ i. is_ok ((check_ban p machine i >> admit p machine reg) w).0 ≡ false) (sym e)
            (after_refusal (λ _. admit p machine reg))))

    heartbeat_refused : (status : ℕ) → is_ok (heartbeat p machine id status w).0 ≡ false
    unfolding heartbeat
    heartbeat_refused status =
        is_ok-carry (find_node p.redis p.json machine.now id w.store) _ _
          (λ node _. refused_with node)
      where
        refused_with :
            (node : Option Node)
            → is_ok
                ((refuse_missing p node >> (check_ban p machine id >> refresh p machine id status))
                  w).0
              ≡ false
        refused_with none = refl
        refused_with (some n) = after_refusal (λ _. refresh p machine id status)

  -- A ban that a moderator signed, of a node in the table, keeps the node out while it lasts: after any
  -- requests that do not change that ban, the node cannot register, has no heartbeat accepted, and is
  -- not online. Redis is assumed to act on its own keys alone, and its DEL not to fail.
  pub moderate_node-run :
      (laws : RedisLaws p.redis) (machine : Machine) (event : String) (a : ModerationAction)
      (w : World Store) (cs : List (Call p signing master_keys)) (later : Machine)
      (reg : Registration) (status : ℕ)
      → ((k : String) (s : Store) → (p.redis.del k s).0 ≡ true)
      → has a.target_id w.db.nodes ≡ true
      → (moderate_node p signing master_keys machine event a w).0 ≡ ok tt
      → All (LeavesBan p signing master_keys a.target_id (expiry machine.now a.duration)) cs
      → is_over later.now (expiry machine.now a.duration) ≡ false
      → reg.identity.node_id ≡ a.target_id
      → let w' =
          run p signing master_keys (moderate_node p signing master_keys machine event a w).1 cs in
        (is_ok (register_node p later reg w').0 ≡ false)
        × (is_ok (heartbeat p later a.target_id status w').0 ≡ false)
        × IsAbsent p.redis (node_key a.target_id) w'.store
  moderate_node-run laws machine event a w cs later reg status dels known done leaves before own =
      let kept =
        run-IsKeptOut p signing master_keys laws a.target_id (expiry machine.now a.duration) _ cs
          leaves (moderate_node-IsKeptOut machine event a w done laws dels known) in
      (
        register_refused laws a.target_id (expiry machine.now a.duration) _ kept later before reg
            own,
        heartbeat_refused laws a.target_id (expiry machine.now a.duration) _ kept later before
            status,
        kept.absent,
      )

  -- A ban that a moderator signed, of a node that is not in the table, succeeds and changes no row.
  pub moderate_unknown :
      (machine : Machine) (event : String) (a : ModerationAction) (w : World Store)
      → lookup a.target_id w.db.nodes ≡ none
      → (moderate_node p signing master_keys machine event a w).0 ≡ ok tt
      → (moderate_node p signing master_keys machine event a w).1.db.nodes ≡ w.db.nodes
  unfolding ban_node
  moderate_unknown machine event a w absent done =
      nodes_after machine event a w done ∙ ground (arith, absent)
