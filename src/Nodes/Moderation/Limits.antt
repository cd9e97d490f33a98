-- ===== src/Nodes/Moderation/Limits.antt =====
-- Where bans end and where they fail to hold, and who may moderate.
use enxame.Base.{
  ℕ, ◌+◌, ◌*◌, ◌%◌, ◌≤◌, ◌<◌, String, ◌≡◌, refl, true, false, List, Option, none, some, arith,
  eq_refl, Option-cases, inl, inr, length,
}
use enxame.Base.Word.{word}
use enxame.Base.Dict.{Dict, lookup, lookup-insert, has}
use enxame.Base.Exec.{ok, err}
use enxame.Crypto.Keys.{new_verifier, IsListed, verify_master_signature-new_verifier}
use enxame.Nodes.Types.{Registration, ModerationAction, node_is_banned}
use enxame.Nodes.Database.{
  NodeRow, Machine, is_over, is_node_banned, ban_node, unban_node, upsert_node, fits, select_ban,
  clear_ban, update_ban,
}
use enxame.Nodes.Service.{World, Platform, check_ban, admit, register_node}
use enxame.Nodes.Moderation.{
  Signing, moderate_node, verify_action, serialize_action, after_seconds, admin_ban_node,
}
use enxame.Nodes.Moderation.Bans.{IsBannedRow}

-- The wrapped product is the seconds' nanoseconds, read as a negative number.
after_seconds_over :
    (now later seconds : ℕ)
    → 0 < now
    → now ≤ later
    → 9223372037 ≤ seconds
    → seconds ≤ 18446744073
    → is_over later (some (after_seconds now seconds)) ≡ true
unfolding after_seconds
after_seconds_over now later seconds positive after low high =
    let unwrapped : (seconds * 1000000000) % word ≡ seconds * 1000000000 = omega arith in
    ground (arith, unwrapped)

after_seconds_within :
    (now seconds : ℕ)
    → seconds ≤ 9223372036
    → after_seconds now seconds ≡ now + seconds * 1000000000
unfolding after_seconds
after_seconds_within now seconds short =
    let unwrapped : (seconds * 1000000000) % word ≡ seconds * 1000000000 = omega arith in
    ground (arith, unwrapped)

module _ {Store : Type 0} (p : Platform Store) where
  check_ban_over :
      (machine : Machine) (id : String) (until : Option ℕ) (w : World Store)
      → IsBannedRow until (lookup id w.db.nodes)
      → is_over machine.now until ≡ true
      → machine.fails select_ban ≡ false
      → (check_ban p machine id w).0 ≡ ok tt
  unfolding check_ban is_node_banned
  check_ban_over machine id until w v over works = elim (Option-cases (lookup id w.db.nodes)) [
    | inl absent ↦ ground (arith, absent, v)
    | inr (r, found) ↦ ground (arith, found, v, over, works)
  ]

  -- Where no statement fails, the check of a ban that is over passes the node and lifts the ban.
  pub check_ban_ends :
      (machine : Machine) (id : String) (until : Option ℕ) (w : World Store)
      → IsBannedRow until (lookup id w.db.nodes)
      → is_over machine.now until ≡ true
      → machine.fails select_ban ≡ false
      → machine.fails clear_ban ≡ false
      → ((check_ban p machine id w).0 ≡ ok tt)
        × ((check_ban p machine id w).1.store ≡ w.store)
        × ((r : NodeRow) × (lookup id (check_ban p machine id w).1.db.nodes ≡ some r)
            × (r.banned ≡ false))
  unfolding check_ban is_node_banned unban_node
  check_ban_ends machine id until w v over works clears =
      elim (Option-cases (lookup id w.db.nodes)) [
        | inl absent ↦ ground (arith, absent, v)
        | inr (r, found) ↦
            let cleared = record r { banned = false; ban_reason = none; ban_expires_at = none } in
            (
              ground (arith, found, v, over, works),
              ground (arith, found, v, over, works),
              (
                cleared,
                ground (
                  arith,
                  found,
                  v,
                  over,
                  works,
                  clears,
                  eq_refl id,
                  lookup-insert id id cleared w.db.nodes,
                ),
                refl,
              ),
            )
      ]

  check_ban_unbanned :
      (machine : Machine) (id : String) (r : NodeRow) (w : World Store)
      → lookup id w.db.nodes ≡ some r
      → r.banned ≡ false
      → machine.fails select_ban ≡ false
      → (check_ban p machine id w).0 ≡ ok tt
  unfolding check_ban is_node_banned
  check_ban_unbanned machine id r w found free works = ground (arith, found, free, works)

  check_ban_lasting :
      (machine : Machine) (id reason : String) (until : ℕ) (r : NodeRow) (w : World Store)
      → lookup id w.db.nodes ≡ some r
      → r.banned ≡ true
      → r.ban_reason ≡ some reason
      → r.ban_expires_at ≡ some until
      → machine.now ≤ until
      → machine.fails select_ban ≡ false
      → check_ban p machine id w ≡ (err (node_is_banned reason), w)
  unfolding check_ban is_node_banned
  check_ban_lasting machine id reason until r w found banned named expires lasts works =
      ground (arith, found, banned, named, expires, lasts, works)

  -- A ban by an administrator of a node in the table, for up to 292 years, if the statements do not fail:
  -- until its time is over the check refuses the node with the reason of the ban and changes nothing; a
  -- check after that passes the node and lifts the ban, so that every later check passes it as well,
  -- whatever its clock says.
  pub check_ban-admin_ban_node :
      (machine before after again : Machine) (id reason : String) (seconds : ℕ) (w : World Store)
      → has id w.db.nodes ≡ true
      → 0 < seconds
      → seconds ≤ 9223372036
      → machine.fails update_ban ≡ false
      → before.now ≤ machine.now + seconds * 1000000000
      → before.fails select_ban ≡ false
      → machine.now + seconds * 1000000000 < after.now
      → after.fails select_ban ≡ false
      → after.fails clear_ban ≡ false
      → again.fails select_ban ≡ false
      → let banned = admin_ban_node p machine id reason seconds w in
        (banned.0 ≡ ok tt)
        × (check_ban p before id banned.1 ≡ (err (node_is_banned reason), banned.1))
        × ((check_ban p after id banned.1).0 ≡ ok tt)
        × ((check_ban p again id (check_ban p after id banned.1).1).0 ≡ ok tt)
  unfolding admin_ban_node ban_node
  check_ban-admin_ban_node machine before after again id reason seconds w known positive short works
        lasts reads over reads' clears reads'' =
      elim (Option-cases (lookup id w.db.nodes)) [
        | inl absent ↦ ground (arith, known, absent)
        | inr (r, found) ↦
            let until = machine.now + seconds * 1000000000 in
            let row = record r {
              banned = true;
              ban_reason = some reason;
              ban_expires_at = some until;
            } in
            let made : after_seconds machine.now seconds ≡ until =
              after_seconds_within machine.now seconds short in
            let w' = (admin_ban_node p machine id reason seconds w).1 in
            let kept : lookup id w'.db.nodes ≡ some row = ground (
              arith,
              found,
              works,
              made,
              positive,
              eq_refl id,
              lookup-insert id id row w.db.nodes,
            ) in
            let ended =
              check_ban_ends after id (some until) w' (ground (arith, kept)) (ground (arith, over))
                reads' clears in
            (
              ground (arith, found, works),
              check_ban_lasting before id reason until row w' kept refl refl refl lasts reads,
              ended.0,
              check_ban_unbanned again id ended.2.0 _ ended.2.1 ended.2.2 reads'',
            )
      ]

  -- A ban by an administrator of 292 years or more, up to twice that, lets the node pass at once: the
  -- duration overflows, and the ban ends before it began.
  pub admin_ban_overflow :
      (machine later : Machine) (id reason : String) (seconds : ℕ) (w : World Store)
      → has id w.db.nodes ≡ true
      → 0 < machine.now
      → machine.now ≤ later.now
      → 9223372037 ≤ seconds
      → seconds ≤ 18446744073
      → machine.fails update_ban ≡ false
      → later.fails select_ban ≡ false
      → ((admin_ban_node p machine id reason seconds w).0 ≡ ok tt)
        × ((check_ban p later id (admin_ban_node p machine id reason seconds w).1).0 ≡ ok tt)
  unfolding admin_ban_node ban_node
  admin_ban_overflow machine later id reason seconds w known positive after low high works reads =
      elim (Option-cases (lookup id w.db.nodes)) [
        | inl absent ↦ ground (arith, known, absent)
        | inr (r, found) ↦
            let banned = record r {
              banned = true;
              ban_reason = some reason;
              ban_expires_at = some (after_seconds machine.now seconds);
            } in
            (
              ground (arith, works),
              check_ban_over later id (some (after_seconds machine.now seconds)) _
                  (ground (arith, found, works, eq_refl id, lookup-insert id id banned w.db.nodes))
                  (after_seconds_over machine.now later.now seconds positive after low high) reads,
            )
      ]

  -- A registration whose version has more than 32 characters leaves no row for a node that had none,
  -- also where it succeeds.
  pub register_unpersisted :
      (machine : Machine) (reg : Registration) (w : World Store)
      → fits 32 reg.version ≡ false
      → lookup reg.identity.node_id w.db.nodes ≡ none
      → lookup reg.identity.node_id (register_node p machine reg w).1.db.nodes ≡ none
  unfolding register_node check_ban admit is_node_banned upsert_node
  register_unpersisted machine reg w long absent = ground (arith, long, absent)

  module _ (signing : Signing) where
    -- With a verifier made from a list of keys, a ban by moderation succeeds only for a moderator whose
    -- key is listed, and on an Ed25519 signature by it of 64 bytes on the encoded action.
    pub moderate_node-new_verifier :
        (texts : List String) (keys : Dict (List ℕ)) (machine : Machine) (event : String)
        (a : ModerationAction) (w : World Store)
        → new_verifier p.crypto texts ≡ some keys
        → (moderate_node p signing keys machine event a w).0 ≡ ok tt
        → (text : String) × (serialize_action p signing keys a ≡ some text)
          × IsListed a.moderator.public_key texts
          × (length a.signature ≡ 64)
          × (p.crypto.verify a.moderator.public_key text a.signature ≡ true)
    unfolding moderate_node verify_action
    moderate_node-new_verifier texts keys machine event a w built done =
        elim (Option-cases (serialize_action p signing keys a)) [
          | inl bad ↦ ground (arith, bad, done)
          | inr (text, good) ↦
              let accepted =
                verify_master_signature-new_verifier p.crypto texts keys a.moderator.public_key text
                  a.signature built (ground (arith, good, done)) in
              (text, good, accepted.0, accepted.1, accepted.2)
        ]
