-- ===== src/Nodes/Moderation/Safety.antt =====
-- A banned node stays out, whatever is asked of the core while the ban lasts.
use enxame.Base.{
  ℕ, String, ◌≡◌, ◌≢◌, sym, subst, ap, false, List, [], ◌∷◌, Option, none, some, arith,
  Option-cases, Bool-cases, inl, inr, All,
}
use enxame.Base.Dict.{Dict, lookup}
use enxame.Base.Exec.{ok, Exec, carry, carry-keeps_if, bind-keeps}
use enxame.Crypto.{verify_node_identity}
use enxame.Nodes.Types.{
  Node, Registration, ModerationAction, GlobalAlert, ContentBan, ModerationEvent, CoreError,
}
use enxame.Nodes.Redis.{RedisLaws, IsAbsent}
use enxame.Nodes.Manager.{
  node_key, register, find_node, refresh_heartbeat, remove_node, publish_moderation_event,
}
use enxame.Nodes.Relays.{get_active_relays}
use enxame.Nodes.Database.{
  Database, Machine, is_over, is_node_banned, upsert_node, ban_node, unban_node,
  save_moderation_action, save_content_ban,
}
use enxame.Nodes.Service.{
  World, Platform, Service, on_store, on_db, ignoring, check_identity, check_ban, refuse_missing,
  admit, node_from, or_no_relays, register_node, heartbeat, remove,
}
use enxame.Nodes.Moderation.{
  Signing, moderate_node, ban_content, publish_global_alert, admin_ban_node, admin_unban_node,
  verify_action, ban_of, content_ban_of, publish, admin_ban_of, publish_internal_alert,
}
use enxame.Nodes.Moderation.Bans.{
  IsBannedRow, lookup-is_node_banned, lookup-upsert_node, lookup-ban_node, lookup-unban_node,
  is_node_banned_lem, register-IsAbsent, remove_node-IsAbsent, refresh_heartbeat-IsAbsent,
  publish-IsAbsent,
}

pub verify_action_state :
    {Store : Type 0} (p : Platform Store) (signing : Signing) (master_keys : Dict (List ℕ))
    (a : ModerationAction) (w : World Store)
    → (verify_action p signing master_keys a w).1 ≡ w
unfolding verify_action
verify_action_state p signing master_keys a w = ground arith

module _ {Store : Type 0} (p : Platform Store) (signing : Signing)
    (master_keys : Dict (List ℕ)) where
  -- The requests that change nodes, bans and events.
  pub data Call : Type 0 where
    registers : Machine → Registration → Call
    heartbeats : Machine → String → ℕ → Call
    removes : Machine → String → Call
    moderates : Machine → String → ModerationAction → Call
    bans_content : Machine → String → ModerationAction → String → Call
    alerts : Machine → ModerationAction → GlobalAlert → Call
    admin_bans : Machine → String → String → ℕ → Call
    admin_unbans : Machine → String → Call

  unfoldable pub step : World Store → Call → World Store
  step w (registers machine reg) = (register_node p machine reg w).1
  step w (heartbeats machine id status) = (heartbeat p machine id status w).1
  step w (removes machine id) = (remove p machine id w).1
  step w (moderates machine event a) = (moderate_node p signing master_keys machine event a w).1
  step w (bans_content machine event a category) =
      (ban_content p signing master_keys machine event a category w).1
  step w (alerts machine a alert) = (publish_global_alert p signing master_keys machine a alert w).1
  step w (admin_bans machine id reason seconds) = (admin_ban_node p machine id reason seconds w).1
  step w (admin_unbans machine id) = (admin_unban_node p machine id w).1

  unfoldable pub run : World Store → List Call → World Store
  run w [] = w
  run w (c ∷ cs) = run (step w c) cs

  -- The node is banned in the table, and Redis has nothing under its key.
  pub record IsKeptOut (id : String) (until : Option ℕ) (w : World Store) : Type 0 where
    pub banned : IsBannedRow until (lookup id w.db.nodes)
    pub absent : IsAbsent p.redis (node_key id) w.store

  -- The ban is not over at the time of a call, and the call does not change that ban.
  abbrev pub LeavesBan : String → Option ℕ → Call → Type 0
  LeavesBan id until (registers machine reg) = is_over machine.now until ≡ false
  LeavesBan id until (heartbeats machine j status) = is_over machine.now until ≡ false
  LeavesBan id until (moderates machine event a) = a.target_id ≢ id
  LeavesBan id until (admin_bans machine j reason seconds) = j ≢ id
  LeavesBan id until (admin_unbans machine j) = j ≢ id
  LeavesBan id until _ = Unit

  module _ (laws : RedisLaws p.redis) (id : String) (until : Option ℕ) where
    abbrev Kept : World Store → Type 0
    Kept = IsKeptOut id until

    keep_on_store :
        {A : Type 0} (m : Exec Store CoreError A)
        → ((s : Store) → IsAbsent p.redis (node_key id) s → IsAbsent p.redis (node_key id) (m s).1)
        → (w : World Store) → Kept w
        → Kept (on_store p m w).1
    keep_on_store m h w v = record { banned = v.banned; absent = h w.store v.absent }

    keep_on_db :
        {A : Type 0} (m : Exec Database CoreError A)
        → ((db : Database)
            → IsBannedRow until (lookup id db.nodes)
            → lookup id (m db).1.nodes ≡ lookup id db.nodes)
        → (w : World Store) → Kept w
        → Kept (on_db p m w).1
    keep_on_db m h w v = record {
      banned = subst (IsBannedRow until) (sym (h w.db v.banned)) v.banned;
      absent = v.absent;
    }

    -- The ban of this node refuses it, and the check keeps it when it is made for any node.
    pub check_ban_refuses :
        (machine : Machine) (w : World Store)
        → is_over machine.now until ≡ false
        → Kept w
        → (check_ban p machine id w).0 ≢ ok tt
    unfolding check_ban
    check_ban_refuses machine w h v =
        ground (arith, is_node_banned_lem machine id until w.db v.banned h)

    check_ban-IsKeptOut :
        (machine : Machine) (j : String)
        → is_over machine.now until ≡ false
        → (w : World Store) → Kept w
        → Kept (check_ban p machine j w).1
    unfolding check_ban
    check_ban-IsKeptOut machine j h =
        bind-keeps Kept (on_db p (is_node_banned machine j)) _
          (keep_on_db (is_node_banned machine j)
            (λ db b. lookup-is_node_banned machine j id until db b h))
          (λ answer w v. elim (Bool-cases answer.0) [ inl yes' ↦ rw yes' v | inr no' ↦ rw no' v ])

    -- What follows the check is kept if it is kept for every other node.
    after_check :
        {A : Type 0} (machine : Machine) (j : String) (f : Service p A)
        → is_over machine.now until ≡ false
        → (j ≢ id → (w : World Store) → Kept w → Kept (f w).1)
        → (w : World Store) → Kept w
        → Kept (carry (check_ban p machine j w).0 (λ _. f) (check_ban p machine j w).1).1
    after_check machine j f h k w v =
        carry-keeps_if Kept (check_ban p machine j w).0 (λ _. f) _
          (check_ban-IsKeptOut machine j h w v)
          (λ u e.
            k
              (λ same.
                check_ban_refuses machine w h v
                  (subst (λ i. (check_ban p machine i w).0 ≡ ok u) same e))
              _ (check_ban-IsKeptOut machine j h w v))

    admit-IsKeptOut :
        (machine : Machine) (reg : Registration)
        → reg.identity.node_id ≢ id
        → (w : World Store) → Kept w
        → Kept (admit p machine reg w).1
    unfolding admit
    admit-IsKeptOut machine reg h =
        let node = node_from p machine.now reg in
        bind-keeps Kept (on_store p (register p.redis p.json p.heartbeat_ttl machine.now node)) _
          (keep_on_store (register p.redis p.json p.heartbeat_ttl machine.now node) (λ s a.
            register-IsAbsent p.redis p.json laws p.heartbeat_ttl machine.now node id s h a))
          (λ _.
            bind-keeps Kept (ignoring p (on_db p (upsert_node machine node))) _
              (keep_on_db (upsert_node machine node)
                (λ db b. lookup-upsert_node machine node id db h))
              (λ _.
                bind-keeps Kept
                  (on_store p (λ s. (
                    or_no_relays p (
                        get_active_relays p.redis p.json p.shuffle machine.now reg.region
                          p.max_relays [] s),
                    s,
                  )))
                  _ (λ w v. v) (λ _ w v. v)))

    register_node-IsKeptOut :
        (machine : Machine) (reg : Registration)
        → is_over machine.now until ≡ false
        → (w : World Store) → Kept w
        → Kept (register_node p machine reg w).1
    unfolding register_node
    register_node-IsKeptOut machine reg h =
        bind-keeps Kept (check_identity p reg) _ identity_kept (λ _.
          after_check machine reg.identity.node_id (admit p machine reg) h
            (λ other. admit-IsKeptOut machine reg other))
      where
        identity_kept : (w : World Store) → Kept w → Kept (check_identity p reg w).1
        identity_kept w v =
            elim (Option-cases (
              verify_node_identity p.crypto reg.identity.node_id reg.identity.public_key
                reg.identity.signature)) [
                  | inl good ↦ rw (good, check_identity) v
                  | inr (e, bad) ↦ rw (bad, check_identity) v
                ]

    heartbeat-IsKeptOut :
        (machine : Machine) (j : String) (status : ℕ)
        → is_over machine.now until ≡ false
        → (w : World Store) → Kept w
        → Kept (heartbeat p machine j status w).1
    unfolding heartbeat
    heartbeat-IsKeptOut machine j status h =
        bind-keeps Kept (on_store p (λ s. (find_node p.redis p.json machine.now j s, s))) _
          (λ w v. v)
          (λ node. bind-keeps Kept (refuse_missing p node) _ (refuse_missing_kept node) (λ _.
            after_check machine j _ h (λ other.
              bind-keeps Kept
                (on_store p (refresh_heartbeat p.redis p.json p.heartbeat_ttl machine.now j status))
                _
                (keep_on_store
                  (refresh_heartbeat p.redis p.json p.heartbeat_ttl machine.now j status)
                  (λ s a.
                    refresh_heartbeat-IsAbsent p.redis p.json laws p.heartbeat_ttl machine.now j id
                      status s other a))
                (λ _ w v. v))))
      where
        refuse_missing_kept :
            (node : Option Node) (w : World Store) → Kept w → Kept (refuse_missing p node w).1
        refuse_missing_kept none w v = v
        refuse_missing_kept (some n) w v = v

    verify_action-IsKeptOut :
        (a : ModerationAction) (w : World Store)
        → Kept w
        → Kept (verify_action p signing master_keys a w).1
    verify_action-IsKeptOut a w v =
        subst Kept (sym (verify_action_state p signing master_keys a w)) v

    nodes-save_moderation_action :
        (machine : Machine) (a : ModerationAction) (db : Database)
        → (save_moderation_action machine a db).1.nodes ≡ db.nodes
    unfolding save_moderation_action
    nodes-save_moderation_action machine a db = ground arith

    nodes-save_content_ban :
        (machine : Machine) (b : ContentBan) (db : Database)
        → (save_content_ban machine b db).1.nodes ≡ db.nodes
    unfolding save_content_ban
    nodes-save_content_ban machine b db = ground arith

    keep_publish : (event : ModerationEvent) (w : World Store) → Kept w → Kept (publish p event w).1
    keep_publish event =
        keep_on_store (publish_moderation_event p.redis p.json event)
          (λ s a. publish-IsAbsent p.redis p.json laws event id s a)

    keep_saved :
        (machine : Machine) (a : ModerationAction) (w : World Store)
        → Kept w
        → Kept (on_db p (save_moderation_action machine a) w).1
    keep_saved machine a =
        keep_on_db (save_moderation_action machine a)
          (λ db b. ap (lookup id) (nodes-save_moderation_action machine a db))

    remove-IsKeptOut :
        (machine : Machine) (j : String) (w : World Store)
        → Kept w
        → Kept (on_store p (remove_node p.redis p.json machine.now j) w).1
    remove-IsKeptOut machine j =
        keep_on_store (remove_node p.redis p.json machine.now j)
          (λ s a. remove_node-IsAbsent p.redis p.json laws machine.now j id s a)

    moderate_node-IsKeptOut :
        (machine : Machine) (event : String) (a : ModerationAction)
        → a.target_id ≢ id
        → (w : World Store) → Kept w
        → Kept (moderate_node p signing master_keys machine event a w).1
    unfolding moderate_node
    moderate_node-IsKeptOut machine event a h =
        let ban = ban_of p signing master_keys machine.now a in
        bind-keeps Kept (verify_action p signing master_keys a) _ (verify_action-IsKeptOut a) (λ _.
          bind-keeps Kept (on_db p (ban_node machine ban)) _
            (keep_on_db (ban_node machine ban) (λ db b. lookup-ban_node machine ban id db h))
            (λ _.
              bind-keeps Kept (ignoring p (on_db p (save_moderation_action machine a))) _
                (keep_saved machine a)
                (λ _.
                  bind-keeps Kept
                    (ignoring p (on_store p (remove_node p.redis p.json machine.now a.target_id))) _
                    (remove-IsKeptOut machine a.target_id) (λ _. keep_publish _))))

    ban_content-IsKeptOut :
        (machine : Machine) (event : String) (a : ModerationAction) (category : String)
        (w : World Store)
        → Kept w
        → Kept (ban_content p signing master_keys machine event a category w).1
    unfolding ban_content
    ban_content-IsKeptOut machine event a category =
        let ban = content_ban_of p signing master_keys machine.now a category in
        bind-keeps Kept (verify_action p signing master_keys a) _ (verify_action-IsKeptOut a) (λ _.
          bind-keeps Kept (on_db p (save_content_ban machine ban)) _
            (keep_on_db (save_content_ban machine ban)
              (λ db b. ap (lookup id) (nodes-save_content_ban machine ban db)))
            (λ _.
              bind-keeps Kept (ignoring p (on_db p (save_moderation_action machine a))) _
                (keep_saved machine a) (λ _. keep_publish _)))

    step-IsKeptOut : (w : World Store) (c : Call) → LeavesBan id until c → Kept w → Kept (step w c)
    unfolding step remove publish_global_alert publish_internal_alert admin_ban_node
        admin_unban_node
    step-IsKeptOut w (registers machine reg) h v = register_node-IsKeptOut machine reg h w v
    step-IsKeptOut w (heartbeats machine j status) h v = heartbeat-IsKeptOut machine j status h w v
    step-IsKeptOut w (removes machine j) h v = remove-IsKeptOut machine j w v
    step-IsKeptOut w (moderates machine event a) h v = moderate_node-IsKeptOut machine event a h w v
    step-IsKeptOut w (bans_content machine event a category) h v =
        ban_content-IsKeptOut machine event a category w v
    step-IsKeptOut w (alerts machine a alert) h v =
        bind-keeps Kept (verify_action p signing master_keys a) _ (verify_action-IsKeptOut a)
          (λ _. keep_publish _) w v
    step-IsKeptOut w (admin_bans machine j reason seconds) h v =
        keep_on_db (ban_node machine (admin_ban_of machine.now j reason seconds))
          (λ db b. lookup-ban_node machine (admin_ban_of machine.now j reason seconds) id db h) w v
    step-IsKeptOut w (admin_unbans machine j) h v =
        keep_on_db (unban_node machine j) (λ db b. lookup-unban_node machine j id db h) w v

    pub run-IsKeptOut :
        (w : World Store) (cs : List Call) → All (LeavesBan id until) cs → Kept w → Kept (run w cs)
    unfolding run
    run-IsKeptOut w [] h v = v
    run-IsKeptOut w (c ∷ cs) h v = run-IsKeptOut (step w c) cs h.1 (step-IsKeptOut w c h.0 v)
