-- ===== src/Client/Roles.antt =====
-- The roles that a client has for the members of its channels, whatever messages it handles.
use enxame.Base.{
  ℕ, String, ◌≡◌, refl, sym, subst, List, [], ◌∷◌, Option, none, some, arith, All, Bool-cases, inl,
  inr,
}
use enxame.Base.Exec.{choose, gets, bind-keeps}
use enxame.E2e.{decrypt}
use enxame.Relay.Types.{Envelope}
use enxame.Storage
use enxame.Storage.{Member, upsert_member_row, put_member, new_storage}
use enxame.Storage.Queries.{find_member}
use enxame.Client.{
  EnxameClient, Client, Library, World, MessageType, is_channel, key_exchange_init,
  key_exchange_ack, chat, join_request, key_response, sync_request, sync_response, file_manifest,
  chunk_request, chunk_response, file, wiki_update, metadata_update, tag_created, tag_added,
  unknown_type,
}
use enxame.Client.Outbox.{send, send_payload, initiate_handshake}
use enxame.Client.Keys.{channel_key, session_key, found}
use enxame.Client.Handlers.{
  record_chat, take_chat, handle_chat_message, handle_channel_join_request, send_secure_message,
}
use enxame.Client.Updates.{parsed}
use enxame.Client.Dispatch.{dispatch, handle_message}
use enxame.Client.Kept
use enxame.Client.Kept.Handled
use enxame.Client.Kept.{members}

-- Everybody is an ordinary member.
abbrev pub OnlyMembers : EnxameClient → Type 0
OnlyMembers c = All (λ m. m.role ≡ "MEMBER") (members c)

put_member-OnlyMembers :
    (now : ℕ) (channel node : String) (ms : List Member)
    → All (λ m. m.role ≡ "MEMBER") ms
    → All (λ m. m.role ≡ "MEMBER") (put_member now channel node "MEMBER" ms)
unfolding put_member
put_member-OnlyMembers now channel node [] h = (refl, tt)
put_member-OnlyMembers now channel node (m ∷ ms) (h, hs) =
    ground (arith, h, hs, put_member-OnlyMembers now channel node ms hs)

pub find_member-OnlyMembers :
    (channel node : String) (ms : List Member) (m : Member)
    → All (λ x. x.role ≡ "MEMBER") ms
    → find_member channel node ms ≡ some m
    → m.role ≡ "MEMBER"
unfolding find_member
find_member-OnlyMembers channel node [] m h e = ground (arith, e)
find_member-OnlyMembers channel node (x ∷ xs) m (h, hs) e =
    ground (arith, h, e, find_member-OnlyMembers channel node xs m hs)

-- A list of members that equals another one which is kept.
pub kept-OnlyMembers : (c d : EnxameClient) → members d ≡ members c → OnlyMembers c → OnlyMembers d
kept-OnlyMembers c d e h = subst (All (λ m. m.role ≡ "MEMBER")) (sym e) h

joined-OnlyMembers :
    (now : ℕ) (channel node : String) (c d : EnxameClient)
    → members d ≡ put_member now channel node "MEMBER" (members c)
    → OnlyMembers c
    → OnlyMembers d
joined-OnlyMembers now channel node c d e h =
    subst (All (λ m. m.role ≡ "MEMBER")) (sym e)
      (put_member-OnlyMembers now channel node (members c) h)

parsed-Keeps : {A : Type 0} (o : Option A) → Kept.Keeps (parsed o)
parsed-Keeps none c = refl
parsed-Keeps (some a) c = refl

found-Keeps : {A : Type 0} (o : Option A) → Kept.Keeps (found o)
found-Keeps none c = refl
found-Keeps (some a) c = refl

call-OnlyMembers :
    {A : Type 0} (m : Client A)
    → Kept.Keeps m
    → (c : EnxameClient) → OnlyMembers c
    → OnlyMembers (m c).1
call-OnlyMembers m keeps c h = kept-OnlyMembers c (m c).1 (keeps c) h

module _ (lib : Library) (w : World) where
  record_chat-OnlyMembers :
      (env : Envelope) (plain : List ℕ) (c : EnxameClient)
      → OnlyMembers c
      → OnlyMembers (record_chat lib w env plain c).1
  unfolding Storage.store_message Storage.put_message Storage.upsert_dm_session
      Storage.upsert_member
  record_chat-OnlyMembers env plain c h = elim (Bool-cases (is_channel env.target_node_id)) [
    | inl public ↦ elim (Bool-cases (w.fails upsert_member_row)) [
      | inl fails ↦
          kept-OnlyMembers c (record_chat lib w env plain c).1 (ground (arith, public, fails)) h
      | inr works ↦
          joined-OnlyMembers w.now env.target_node_id env.sender_node_id c
            (record_chat lib w env plain c).1 (ground (arith, public, works)) h
    ]
    | inr direct ↦ kept-OnlyMembers c (record_chat lib w env plain c).1 (ground (arith, direct)) h
  ]

  handle_chat_message-OnlyMembers :
      (env : Envelope) (bytes : List ℕ) (c : EnxameClient)
      → OnlyMembers c
      → OnlyMembers (handle_chat_message lib w env bytes c).1
  unfolding handle_chat_message
  handle_chat_message-OnlyMembers env bytes c h =
      bind-keeps OnlyMembers keyed _ (call-OnlyMembers keyed keyed-Keeps)
        (λ stored.
          bind-keeps OnlyMembers (found stored) _
            (call-OnlyMembers (found stored) (found-Keeps stored))
            (λ key x k. by_plain (decrypt lib.e2e key bytes) x k))
        c h
    where
      keyed : Client (Option (List ℕ))
      keyed =
          choose (is_channel env.target_node_id) (channel_key w env.target_node_id)
            (gets (session_key env.sender_node_id))

      keyed-Keeps : Kept.Keeps keyed
      keyed-Keeps x = ground (arith, Kept.channel_key-Keeps lib w env.target_node_id x)

      by_plain :
          (o : Option (List ℕ)) (x : EnxameClient)
          → OnlyMembers x
          → OnlyMembers (take_chat lib w env o x).1
      by_plain none x k = k
      by_plain (some plain) x k = record_chat-OnlyMembers env plain x k

  handle_channel_join_request-OnlyMembers :
      (sender : String) (bytes : List ℕ) (c : EnxameClient)
      → OnlyMembers c
      → OnlyMembers (handle_channel_join_request lib w sender bytes c).1
  unfolding handle_channel_join_request Storage.upsert_member send_secure_message initiate_handshake
      send_payload send
  handle_channel_join_request-OnlyMembers sender bytes c h =
      let d = (handle_channel_join_request lib w sender bytes c).1 in
      elim (Bool-cases (w.fails upsert_member_row)) [
        | inl fails ↦ kept-OnlyMembers c d (ground (arith, fails)) h
        | inr works ↦
            joined-OnlyMembers w.now (lib.to_text bytes) sender c d (ground (arith, works)) h
      ]

  dispatch-OnlyMembers :
      (env : Envelope) (kind : MessageType) (bytes : List ℕ) (c : EnxameClient)
      → OnlyMembers c
      → OnlyMembers (dispatch lib w env kind bytes c).1
  unfolding dispatch
  dispatch-OnlyMembers env kind bytes c h = by_kind kind
    where
      sender : String
      sender = env.sender_node_id

      target : String
      target = env.target_node_id

      by_kind : (k : MessageType) → OnlyMembers (dispatch lib w env k bytes c).1
      by_kind key_exchange_init =
          kept-OnlyMembers c (dispatch lib w env key_exchange_init bytes c).1
            (Handled.handle_key_exchange_init-Keeps lib w sender bytes c) h
      by_kind key_exchange_ack =
          kept-OnlyMembers c (dispatch lib w env key_exchange_ack bytes c).1
            (Handled.handle_key_exchange_ack-Keeps lib w sender bytes c) h
      by_kind chat = handle_chat_message-OnlyMembers env bytes c h
      by_kind join_request = handle_channel_join_request-OnlyMembers sender bytes c h
      by_kind key_response =
          kept-OnlyMembers c (dispatch lib w env key_response bytes c).1
            (Handled.handle_channel_key_response-Keeps lib w bytes c) h
      by_kind sync_request = h
      by_kind sync_response = h
      by_kind file_manifest = h
      by_kind chunk_request =
          kept-OnlyMembers c (dispatch lib w env chunk_request bytes c).1
            (Handled.handle_chunk_request-Keeps lib w sender bytes c) h
      by_kind chunk_response =
          kept-OnlyMembers c (dispatch lib w env chunk_response bytes c).1
            (Handled.handle_chunk_response-Keeps lib w bytes c) h
      by_kind file =
          kept-OnlyMembers c (dispatch lib w env file bytes c).1
            (Handled.handle_file_payload-Keeps lib w env bytes c) h
      by_kind wiki_update =
          kept-OnlyMembers c (dispatch lib w env wiki_update bytes c).1
            (Handled.handle_wiki_update-Keeps lib w sender target bytes c) h
      by_kind metadata_update =
          kept-OnlyMembers c (dispatch lib w env metadata_update bytes c).1
            (Handled.handle_metadata_update-Keeps lib w sender target bytes c) h
      by_kind tag_created =
          kept-OnlyMembers c (dispatch lib w env tag_created bytes c).1
            (Handled.handle_tag_created-Keeps lib w sender target bytes c) h
      by_kind tag_added =
          kept-OnlyMembers c (dispatch lib w env tag_added bytes c).1
            (Handled.handle_tag_added-Keeps lib w sender target bytes c) h
      by_kind unknown_type = h

  pub handle_message-OnlyMembers :
      (env : Envelope) (c : EnxameClient)
      → OnlyMembers c
      → OnlyMembers (handle_message lib w env c).1
  unfolding handle_message
  handle_message-OnlyMembers env c h =
      bind-keeps OnlyMembers (parsed (lib.payloads.unmarshal env.encrypted_payload)) _
        (call-OnlyMembers (parsed (lib.payloads.unmarshal env.encrypted_payload))
          (parsed-Keeps (lib.payloads.unmarshal env.encrypted_payload)))
        (λ payload x k. dispatch-OnlyMembers env payload.kind payload.content x k) c h
