-- ===== src/Nodes/Moderation/Content.antt =====
-- Bans of content, without moderators in the table.
use enxame.Base.{
  ℕ, String, ◌≡◌, ◌≢◌, refl, sym, subst, List, [], ◌∷◌, Option, none, some, arith, Option-cases,
  Bool-cases, inl, inr,
}
use enxame.Base.Dict.{Dict, lookup}
use enxame.Base.Exec.{ok, bind-keeps}
use enxame.Crypto.{verify_node_identity}
use enxame.Nodes.Types.{Node, Registration, NodeBan, ContentBan, ModerationAction}
use enxame.Nodes.Manager.{register, find_node, refresh_heartbeat, remove_node}
use enxame.Nodes.Relays.{get_active_relays}
use enxame.Nodes.Database.{
  Database, Machine, create_tables, is_node_banned, upsert_node, ban_node, unban_node,
  save_moderation_action, save_content_ban,
}
use enxame.Nodes.Service.{
  World, Platform, on_store, on_db, ignoring, check_identity, check_ban, admit, node_from,
  or_no_relays, refuse_missing, register_node, heartbeat, remove,
}
use enxame.Nodes.Moderation.{
  Signing, verify_action, ban_of, content_ban_of, moderate_node, ban_content, publish_global_alert,
  admin_ban_node, admin_unban_node, admin_ban_of, publish_internal_alert,
}
use enxame.Nodes.Moderation.Safety.{
  Call, registers, heartbeats, removes, moderates, bans_content, alerts, admin_bans, admin_unbans,
  step, run, verify_action_state,
}

-- No moderator is in the table, and no ban of content.
abbrev pub HasNoModerators : Database → Type 0
HasNoModerators db = (db.global_moderators ≡ []) × (db.content_bans ≡ [])

save_content_ban_refused :
    (machine : Machine) (b : ContentBan) (db : Database)
    → HasNoModerators db
    → ((save_content_ban machine b db).0 ≢ ok tt) × ((save_content_ban machine b db).1 ≡ db)
unfolding save_content_ban lookup
save_content_ban_refused machine b db v = ground (arith, v)

is_node_banned_kept :
    (machine : Machine) (id : String) (db : Database)
    → HasNoModerators db
    → HasNoModerators (is_node_banned machine id db).1
unfolding is_node_banned unban_node
is_node_banned_kept machine id db v = elim (Option-cases (lookup id db.nodes)) [
  | inl absent ↦ ground (arith, absent, v)
  | inr (r, found) ↦ ground (arith, found, v)
]

upsert_node_kept :
    (machine : Machine) (n : Node) (db : Database)
    → HasNoModerators db
    → HasNoModerators (upsert_node machine n db).1
unfolding upsert_node
upsert_node_kept machine n db v = ground (arith, v)

ban_node_kept :
    (machine : Machine) (b : NodeBan) (db : Database)
    → HasNoModerators db
    → HasNoModerators (ban_node machine b db).1
unfolding ban_node
ban_node_kept machine b db v = ground (arith, v)

unban_node_kept :
    (machine : Machine) (id : String) (db : Database)
    → HasNoModerators db
    → HasNoModerators (unban_node machine id db).1
unfolding unban_node
unban_node_kept machine id db v = ground (arith, v)

save_moderation_action_kept :
    (machine : Machine) (a : ModerationAction) (db : Database)
    → HasNoModerators db
    → HasNoModerators (save_moderation_action machine a db).1
unfolding save_moderation_action
save_moderation_action_kept machine a db v = ground (arith, v)

module _ {Store : Type 0} (p : Platform Store) (signing : Signing)
    (master_keys : Dict (List ℕ)) where
  abbrev Kept : World Store → Type 0
  Kept w = HasNoModerators w.db

  check_ban-Kept :
      (machine : Machine) (id : String) (w : World Store)
      → Kept w
      → Kept (check_ban p machine id w).1
  unfolding check_ban
  check_ban-Kept machine id =
      bind-keeps Kept (on_db p (is_node_banned machine id)) _
        (λ w v. is_node_banned_kept machine id w.db v)
        (λ answer w v. elim (Bool-cases answer.0) [ inl yes' ↦ rw yes' v | inr no' ↦ rw no' v ])

  admit-Kept :
      (machine : Machine) (reg : Registration) (w : World Store)
      → Kept w
      → Kept (admit p machine reg w).1
  unfolding admit
  admit-Kept machine reg =
      let node = node_from p machine.now reg in
      bind-keeps Kept (on_store p (register p.redis p.json p.heartbeat_ttl machine.now node)) _
        (λ w v. v)
        (λ _.
          bind-keeps Kept (ignoring p (on_db p (upsert_node machine node))) _
            (λ w v. upsert_node_kept machine node w.db v)
            (λ _.
              bind-keeps Kept
                (on_store p (λ s. (
                  or_no_relays p (
                      get_active_relays p.redis p.json p.shuffle machine.now reg.region p.max_relays
                        [] s),
                  s,
                )))
                _ (λ w v. v) (λ _ w v. v)))

  register_node-Kept :
      (machine : Machine) (reg : Registration) (w : World Store)
      → Kept w
      → Kept (register_node p machine reg w).1
  unfolding register_node
  register_node-Kept machine reg = bind-keeps Kept (check_identity p reg) _ identity_kept (λ _.
      bind-keeps Kept (check_ban p machine reg.identity.node_id) _
        (check_ban-Kept machine reg.identity.node_id) (λ _. admit-Kept machine reg))
    where
      identity_kept : (w : World Store) → Kept w → Kept (check_identity p reg w).1
      identity_kept w v =
          elim (Option-cases (
            verify_node_identity p.crypto reg.identity.node_id reg.identity.public_key
              reg.identity.signature)) [
                | inl good ↦ rw (good, check_identity) v
                | inr (e, bad) ↦ rw (bad, check_identity) v
              ]

  heartbeat-Kept :
      (machine : Machine) (id : String) (status : ℕ) (w : World Store)
      → Kept w
      → Kept (heartbeat p machine id status w).1
  unfolding heartbeat
  heartbeat-Kept machine id status =
      bind-keeps Kept (on_store p (λ s. (find_node p.redis p.json machine.now id s, s))) _
        (λ w v. v)
        (λ node. bind-keeps Kept (refuse_missing p node) _ (missing_kept node) (λ _.
          bind-keeps Kept (check_ban p machine id) _ (check_ban-Kept machine id) (λ _.
            bind-keeps Kept
              (on_store p (refresh_heartbeat p.redis p.json p.heartbeat_ttl machine.now id status))
              _ (λ w v. v) (λ _ w v. v))))
    where
      missing_kept :
          (node : Option Node) (w : World Store) → Kept w → Kept (refuse_missing p node w).1
      missing_kept none w v = v
      missing_kept (some n) w v = v

  verify_action-Kept :
      (a : ModerationAction) (w : World Store)
      → Kept w
      → Kept (verify_action p signing master_keys a w).1
  verify_action-Kept a w v = subst Kept (sym (verify_action_state p signing master_keys a w)) v

  ban_content_lem :
      (machine : Machine) (event : String) (a : ModerationAction) (category : String)
      (w : World Store)
      → Kept w
      → ((ban_content p signing master_keys machine event a category w).0 ≢ ok tt)
        × ((ban_content p signing master_keys machine event a category w).1 ≡ w)
  unfolding ban_content
  ban_content_lem machine event a category w v = ground (
    arith,
    verify_action_state p signing master_keys a w,
    save_content_ban_refused machine (content_ban_of p signing master_keys machine.now a category)
        w.db v,
  )

  moderate_node-Kept :
      (machine : Machine) (event : String) (a : ModerationAction) (w : World Store)
      → Kept w
      → Kept (moderate_node p signing master_keys machine event a w).1
  unfolding moderate_node
  moderate_node-Kept machine event a =
      let ban = ban_of p signing master_keys machine.now a in
      bind-keeps Kept (verify_action p signing master_keys a) _ (verify_action-Kept a) (λ _.
        bind-keeps Kept (on_db p (ban_node machine ban)) _ (λ w v. ban_node_kept machine ban w.db v)
          (λ _.
            bind-keeps Kept (ignoring p (on_db p (save_moderation_action machine a))) _
              (λ w v. save_moderation_action_kept machine a w.db v)
              (λ _.
                bind-keeps Kept
                  (ignoring p (on_store p (remove_node p.redis p.json machine.now a.target_id))) _
                  (λ w v. v) (λ _ w v. v))))

  step-Kept :
      (w : World Store) (c : Call p signing master_keys)
      → Kept w
      → Kept (step p signing master_keys w c)
  unfolding step remove publish_global_alert publish_internal_alert admin_ban_node admin_unban_node
  step-Kept w (registers machine reg) v = register_node-Kept machine reg w v
  step-Kept w (heartbeats machine id status) v = heartbeat-Kept machine id status w v
  step-Kept w (removes machine id) v = v
  step-Kept w (moderates machine event a) v = moderate_node-Kept machine event a w v
  step-Kept w (bans_content machine event a category) v =
      subst Kept (sym (ban_content_lem machine event a category w v).1) v
  step-Kept w (alerts machine a alert) v =
      bind-keeps Kept (verify_action p signing master_keys a) _ (verify_action-Kept a) (λ _ w v. v)
        w v
  step-Kept w (admin_bans machine id reason seconds) v =
      ban_node_kept machine (admin_ban_of machine.now id reason seconds) w.db v
  step-Kept w (admin_unbans machine id) v = unban_node_kept machine id w.db v

  run-Kept :
      (w : World Store) (cs : List (Call p signing master_keys))
      → Kept w
      → Kept (run p signing master_keys w cs)
  unfolding run
  run-Kept w [] v = v
  run-Kept w (c ∷ cs) v = run-Kept (step p signing master_keys w c) cs (step-Kept w c v)

  -- On tables as the server creates them, after any requests, a ban of content never succeeds and
  -- changes nothing: no request adds a moderator, and the ban refers to one.
  pub ban_content-run :
      (s : Store) (cs : List (Call p signing master_keys)) (machine : Machine) (event : String)
      (a : ModerationAction) (category : String)
      → let w = run p signing master_keys (record { store = s; db = create_tables }) cs in
        ((ban_content p signing master_keys machine event a category w).0 ≢ ok tt)
        × ((ban_content p signing master_keys machine event a category w).1 ≡ w)
  unfolding create_tables
  ban_content-run s cs machine event a category =
      ban_content_lem machine event a category _
        (run-Kept (record { store = s; db = create_tables }) cs (refl, refl))
