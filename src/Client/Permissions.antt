-- ===== src/Client/Permissions.antt =====
-- What a client may do in its channels, after any calls.
use enxame.Base.{
  ℕ, String, ◌≡◌, ◌⊎◌, refl, ap, ◌∙◌, true, false, List, [], ◌∷◌, none, some, arith, Bool-cases,
  Option-cases, inl, inr,
}
use enxame.Base.Exec.{Outcome, ok, err}
use enxame.Storage.{Storage, Member, StorageError, select_member, sql_failed, no_rows, new_storage}
use enxame.Storage.Queries.{find_member, get_member}
use enxame.Client.{EnxameClient, Library, World, permission_denied, machine_of, value_of}
use enxame.Client.Hub.{require_officer, own_role, role_or_user, set_channel_config, create_tag}
use enxame.Client.Core.{Answer, update_channel_avatar}
use enxame.Client.Calls.{
  Call, receives, sends, sends_file, saves_file, greets, creates_channel, joins, saves_page,
  sets_config, creates_tag, tags, updates_avatar, logs_in, logs_out, step, run,
}
use enxame.Client.Kept
use enxame.Client.Roles.{
  OnlyMembers, kept-OnlyMembers, find_member-OnlyMembers, handle_message-OnlyMembers,
}

get_member_fails :
    (w : World) (channel node : String) (s : Storage)
    → w.fails select_member ≡ true
    → (get_member (machine_of w) channel node s).0 ≡ err sql_failed
unfolding get_member
get_member_fails w channel node s fails = ground (arith, fails)

get_member_absent :
    (w : World) (channel node : String) (s : Storage)
    → w.fails select_member ≡ false
    → find_member channel node s.channel_members ≡ none
    → (get_member (machine_of w) channel node s).0 ≡ err no_rows
unfolding get_member
get_member_absent w channel node s works absent = rw (works, absent) refl

get_member_present :
    (w : World) (channel node : String) (m : Member) (s : Storage)
    → w.fails select_member ≡ false
    → find_member channel node s.channel_members ≡ some m
    → (get_member (machine_of w) channel node s).0 ≡ ok m
unfolding get_member
get_member_present w channel node m s works present = rw (works, present) refl

-- The client takes itself for somebody without rank.
own_role_lem :
    (w : World) (channel : String) (c : EnxameClient)
    → OnlyMembers c
    → (own_role w channel c ≡ "USER") ⊎ (own_role w channel c ≡ "MEMBER")
own_role_lem w channel c h = elim (Bool-cases (w.fails select_member)) [
  | inl fails ↦ inl (ap seen_role (get_member_fails w channel c.node_id c.storage fails))
  | inr works ↦ elim (Option-cases (find_member channel c.node_id c.storage.channel_members)) [
    | inl absent ↦ inl (ap seen_role (get_member_absent w channel c.node_id c.storage works absent))
    | inr (m, present) ↦ inr (
        ap seen_role (get_member_present w channel c.node_id m c.storage works present)
        ∙ find_member-OnlyMembers channel c.node_id c.storage.channel_members m h present)
  ]
]
  where
    seen_role : Outcome StorageError Member → String
    seen_role o = role_or_user (value_of o)

require_officer_lem :
    (w : World) (channel : String) (c : EnxameClient)
    → OnlyMembers c
    → (require_officer w channel c).0 ≡ err permission_denied
unfolding require_officer
require_officer_lem w channel c h = elim (own_role_lem w channel c h) [
  | inl user ↦ rw user refl
  | inr member ↦ rw member refl
]

module _ (lib : Library) where
  step-OnlyMembers :
      (w : World) (call : Call) (c : EnxameClient) → OnlyMembers c → OnlyMembers (step lib w call c)
  unfolding step
  step-OnlyMembers w (receives env) c h = handle_message-OnlyMembers lib w env c h
  step-OnlyMembers w (sends target message) c h =
      kept-OnlyMembers c (step lib w (sends target message) c)
        (Kept.send_message-Keeps lib w target message c) h
  step-OnlyMembers w (sends_file read target path content) c h =
      kept-OnlyMembers c (step lib w (sends_file read target path content) c)
        (Kept.send_file-Keeps lib w read target path content c) h
  step-OnlyMembers w (saves_file id dest) c h =
      kept-OnlyMembers c (step lib w (saves_file id dest) c)
        (Kept.save_file_to_disk-Keeps lib w id dest c) h
  step-OnlyMembers w (greets target) c h =
      kept-OnlyMembers c (step lib w (greets target) c)
        (Kept.initiate_handshake-Keeps lib w target c) h
  step-OnlyMembers w (creates_channel key call name) c h =
      kept-OnlyMembers c (step lib w (creates_channel key call name) c)
        (Kept.create_channel-Keeps lib w key call name c) h
  step-OnlyMembers w (joins channel) c h =
      kept-OnlyMembers c (step lib w (joins channel) c) (Kept.join_channel-Keeps lib w channel c) h
  step-OnlyMembers w (saves_page channel title content) c h =
      kept-OnlyMembers c (step lib w (saves_page channel title content) c)
        (Kept.save_wiki_page-Keeps lib w channel title content c) h
  step-OnlyMembers w (sets_config channel key val) c h =
      kept-OnlyMembers c (step lib w (sets_config channel key val) c)
        (Kept.set_channel_config-Keeps lib w channel key val c) h
  step-OnlyMembers w (creates_tag channel name color) c h =
      kept-OnlyMembers c (step lib w (creates_tag channel name color) c)
        (Kept.create_tag-Keeps lib w channel name color c) h
  step-OnlyMembers w (tags channel message tag) c h =
      kept-OnlyMembers c (step lib w (tags channel message tag) c)
        (Kept.tag_message-Keeps lib w channel message tag c) h
  step-OnlyMembers w (updates_avatar call channel avatar) c h =
      kept-OnlyMembers c (step lib w (updates_avatar call channel avatar) c)
        (Kept.update_channel_avatar-Keeps lib w call channel avatar c) h
  step-OnlyMembers w (logs_in answer) c h =
      kept-OnlyMembers c (step lib w (logs_in answer) c) (Kept.keep_token-Keeps w answer c) h
  step-OnlyMembers w logs_out c h =
      kept-OnlyMembers c (step lib w logs_out c) (Kept.logout-Keeps w c) h

  run-OnlyMembers :
      (calls : List (World × Call)) (c : EnxameClient)
      → OnlyMembers c
      → OnlyMembers (run lib calls c)
  unfolding run
  run-OnlyMembers [] c h = h
  run-OnlyMembers ((w, call) ∷ calls) c h =
      run-OnlyMembers calls (step lib w call c) (step-OnlyMembers w call c h)

  -- Whatever a client that began with an empty database has done and received, every setting of a
  -- channel, every new tag and every avatar that it asks for is refused for lack of permission, and
  -- leaves the client as it is.
  pub run_refused :
      (calls : List (World × Call)) (w : World) (c : EnxameClient)
      → c.storage ≡ new_storage
      → let d = run lib calls c in
        ((channel key val : String)
          → set_channel_config lib w channel key val d ≡ (err permission_denied, d))
        × ((channel name color : String)
            → create_tag lib w channel name color d ≡ (err permission_denied, d))
        × ((call : String → String → String → ℕ → List ℕ → Answer Unit) (channel avatar : String)
            → update_channel_avatar lib w call channel avatar d ≡ (err permission_denied, d))
  unfolding set_channel_config create_tag update_channel_avatar require_officer
  run_refused calls w c new =
      let d = run lib calls c in
      let refused = λ (channel : String).
        require_officer_lem w channel d (run-OnlyMembers calls c (ground (arith, new))) in
      (
        λ channel key val. ground (arith, refused channel),
        λ channel name color. ground (arith, refused channel),
        λ call channel avatar. ground (arith, refused channel),
      )
