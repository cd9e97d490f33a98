-- ===== src/Nodes/Moderation.antt =====
-- Moderation: internal/service/moderation_service.go, and the methods of AdminServer in
-- internal/server/admin_server.go that ban.
use enxame.Base.{
  ℕ, ◌+◌, ◌*◌, ◌-◌, ◌%◌, String, Bool, true, false, not, List, [], ◌∷◌, Option, none, some, ltb,
  if◌then◌else◌, ◌==◌, any,
}
use enxame.Base.Word.{word, is_negative}
use enxame.Base.Dict.{Dict}
use enxame.Base.Exec.{Outcome, ok, err, panic, Exec, ◌>>=◌, ◌>>◌, pure, fail, modify, refuse_if}
use enxame.Crypto.{is_master_key, verify_master_signature}
use enxame.Nodes.Types.{
  NodeBan, ContentBan, GlobalAlert, ModerationAction, ModerationEvent, ModeratorSignature,
  node_banned, content_banned, global_alert, json_failed, unauthorized_moderator,
  invalid_moderation_sign, unix,
}
use enxame.Nodes.Manager.{publish_moderation_event, remove_node}
use enxame.Nodes.Database.{Machine, ban_node, unban_node, save_moderation_action, save_content_ban}
use enxame.Nodes.Service.{World, Platform, Service, on_store, on_db, ignoring}
pub mod Bans
pub mod Safety
pub mod Exclusion
pub mod Content
pub mod Limits

-- The struct that a moderator signs.
pub record ToSign : Type 0 where
  pub action_id : String
  pub event_type : ℕ
  pub target_id : String
  pub reason : String
  pub duration : ℕ
  pub created_at : ℕ

-- json.Marshal on it, and the whole seconds of a duration, which Go computes in floating point.
pub record Signing : Type 0 where
  pub marshal : ToSign → Option String
  pub seconds : ℕ → ℕ

-- A duration of zero is a ban without an end.
abbrev pub expiry : ℕ → ℕ → Option ℕ
expiry now duration = if ltb 0 duration then some (now + duration) else none

abbrev signed_by : ModerationAction → ModeratorSignature
signed_by a = record {
  moderator_id = a.moderator.moderator_id;
  public_key = a.moderator.public_key;
  signature = a.signature;
  signed_at = a.created_at;
}

-- The filter of SubscribeToEvents: no types are all types.
unfoldable pub passes : List ℕ → ModerationEvent → Bool
passes [] event = true
passes (t ∷ ts) event = any (λ u. u == event.event_type) (t ∷ ts)

-- time.Duration(seconds) * time.Second is an int64 and wraps around; a time before 1970 is 0.
unfoldable pub after_seconds : ℕ → ℕ → ℕ
after_seconds now seconds =
    let d = (seconds * 1000000000) % word in if is_negative d then now - (word - d) else now + d

-- AdminServer.BanNode and UnbanNode: the table alone, without Redis and without an event.
abbrev pub admin_ban_of : ℕ → String → String → ℕ → NodeBan
admin_ban_of now id reason seconds = record {
  banned_node_id = id;
  reason = reason;
  duration_seconds = seconds;
  banned_at = now;
  expires_at = if ltb 0 seconds then some (after_seconds now seconds) else none;
  moderator_id = "";
}

module _ {Store : Type 0} (p : Platform Store) where
  abbrev pub publish : ModerationEvent → Service p Unit
  publish event = on_store p (publish_moderation_event p.redis p.json event)

  unfoldable pub publish_internal_alert :
      Machine → GlobalAlert → String → List ℕ → ℕ → Service p Unit
  publish_internal_alert machine alert moderator_id signature signed_at = publish (record {
    event_id = alert.alert_id;
    event_type = 3;
    timestamp = machine.now;
    payload = global_alert alert;
    moderator_signature = record {
      moderator_id = moderator_id;
      public_key = [];
      signature = signature;
      signed_at = signed_at;
    };
  })

  unfoldable pub admin_ban_node : Machine → String → String → ℕ → Service p Unit
  admin_ban_node machine id reason seconds =
      on_db p (ban_node machine (admin_ban_of machine.now id reason seconds))

  unfoldable pub admin_unban_node : Machine → String → Service p Unit
  admin_unban_node machine id = on_db p (unban_node machine id)

  module _ (signing : Signing) (master_keys : Dict (List ℕ)) where
    abbrev to_sign : ModerationAction → ToSign
    to_sign a = record {
      action_id = a.action_id;
      event_type = a.event_type;
      target_id = a.target_id;
      reason = a.reason;
      duration = signing.seconds a.duration;
      created_at = unix a.created_at;
    }

    unfoldable pub serialize_action : ModerationAction → Option String
    serialize_action a = signing.marshal (to_sign a)

    verify_serialized : ModerationAction → Option String → Service p Unit
    verify_serialized a none = fail json_failed
    verify_serialized a (some text) =
        elim (verify_master_signature p.crypto master_keys a.moderator.public_key text
          a.signature) [ none ↦ pure tt | some e ↦ fail invalid_moderation_sign ]

    -- The two checks that every action begins with.
    unfoldable pub verify_action : ModerationAction → Service p Unit
    unfolding verify_serialized serialize_action
    verify_action a = do
      refuse_if (not (is_master_key p.crypto master_keys a.moderator.public_key))
          unauthorized_moderator
      verify_serialized a (serialize_action a)

    abbrev pub ban_of : ℕ → ModerationAction → NodeBan
    ban_of now a = record {
      banned_node_id = a.target_id;
      reason = a.reason;
      duration_seconds = signing.seconds a.duration;
      banned_at = now;
      expires_at = expiry now a.duration;
      moderator_id = a.moderator.moderator_id;
    }

    abbrev pub content_ban_of : ℕ → ModerationAction → String → ContentBan
    content_ban_of now a category = record {
      content_hash = a.target_id;
      reason = a.reason;
      category = category;
      banned_at = now;
      moderator_id = a.moderator.moderator_id;
    }

    abbrev pub ban_event : Machine → String → ModerationAction → ModerationEvent
    ban_event machine event_id a = record {
      event_id = event_id;
      event_type = 1;
      timestamp = machine.now;
      payload = node_banned (ban_of machine.now a);
      moderator_signature = signed_by a;
    }

    -- The id of the event is a new UUID, which the machine supplies.
    unfoldable pub moderate_node : Machine → String → ModerationAction → Service p Unit
    unfolding verify_action
    moderate_node machine event_id a = do
      verify_action a
      on_db p (ban_node machine (ban_of machine.now a))
      ignoring p (on_db p (save_moderation_action machine a))
      ignoring p (on_store p (remove_node p.redis p.json machine.now a.target_id))
      publish (ban_event machine event_id a)

    unfoldable pub ban_content : Machine → String → ModerationAction → String → Service p Unit
    unfolding verify_action
    ban_content machine event_id a category = do
      verify_action a
      on_db p (save_content_ban machine (content_ban_of machine.now a category))
      ignoring p (on_db p (save_moderation_action machine a))
      publish (record {
        event_id = event_id;
        event_type = 2;
        timestamp = machine.now;
        payload = content_banned (content_ban_of machine.now a category);
        moderator_signature = signed_by a;
      })

    unfoldable pub publish_global_alert : Machine → ModerationAction → GlobalAlert → Service p Unit
    unfolding verify_action publish_internal_alert
    publish_global_alert machine a alert = do
      verify_action a
      publish_internal_alert machine alert a.moderator.moderator_id a.signature a.created_at
