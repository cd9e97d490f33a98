-- ===== src/Client/Keys.antt =====
-- The keys under which a client encrypts and decrypts: those of channels, which it remembers from its
-- database, and those of its sessions with other nodes.
use enxame.Base.{ℕ, String, List, [], Option, none, some, if◌then◌else◌}
use enxame.Base.Text.{◌==◌}
use enxame.Base.Dict.{lookup, insert}
use enxame.Base.Exec.{ok, pure, fail}
use enxame.Crypto.Keys.{hex_bytes, hex_decode}
use enxame.Storage.Queries.{get_channel_key}
use enxame.Client.{
  EnxameClient, World, Client, no_session, malformed, key_not_found, machine_of, query, is_channel,
}

-- The stored key, if the query succeeds.
abbrev pub stored_key : World → String → EnxameClient → Option String
stored_key w channel = query (get_channel_key (machine_of w) channel)

abbrev pub stored_nonempty : World → String → EnxameClient → Option String
stored_nonempty w channel c = elim (stored_key w channel c) [
  | none ↦ none
  | some key_hex ↦ if key_hex == "" then none else some key_hex
]

-- The key of a channel in memory, or else a stored one, which is remembered.
abbrev remember : String → Option String → Client (Option (List ℕ))
remember channel none c = (ok none, c)
remember channel (some key_hex) c = (
  ok (some (hex_bytes key_hex)),
  record c { channel_keys = insert channel (hex_bytes key_hex) c.channel_keys },
)

abbrev recall : (EnxameClient → Option String) → String → Client (Option (List ℕ))
recall stored channel c = elim (lookup channel c.channel_keys) [
  | none ↦ remember channel (stored c) c
  | some key ↦ (ok (some key), c)
]

-- In handleChatMessage, SendMessage, SaveWikiPage and SetChannelConfig an empty stored key is none.
unfoldable pub channel_key : World → String → Client (Option (List ℕ))
channel_key w channel = recall (stored_nonempty w channel) channel

-- In decryptPayload it is a key.
unfoldable pub channel_key_or_empty : World → String → Client (Option (List ℕ))
channel_key_or_empty w channel = recall (stored_key w channel) channel

-- getChannelKey, which rejects what is not hexadecimal.
unfoldable pub get_channel_key_bytes : World → String → Client (List ℕ)
get_channel_key_bytes w channel c = elim (lookup channel c.channel_keys) [
  | some key ↦ (ok key, c)
  | none ↦ elim (stored_key w channel c) [
    | none ↦ fail key_not_found c
    | some key_hex ↦ elim (hex_decode key_hex) [
      | none ↦ fail malformed c
      | some key ↦ (ok key, record c { channel_keys = insert channel key c.channel_keys })
    ]
  ]
]

-- In handleFilePayload and SendFile, which do not remember it, a missing key is empty.
unfoldable pub key_or_empty : World → String → String → EnxameClient → List ℕ
key_or_empty w peer target c =
    if is_channel target
    then elim (lookup target c.channel_keys) [
      | some key ↦ key
      | none ↦ elim (stored_key w target c) [ none ↦ [] | some key_hex ↦ hex_bytes key_hex ]
    ]
    else elim (lookup peer c.e2e_sessions) [ none ↦ [] | some session ↦ session.shared_key ]

-- The key of the session with a node.
abbrev pub session_key : String → EnxameClient → Option (List ℕ)
session_key peer c = elim (lookup peer c.e2e_sessions) [
  | none ↦ none
  | some session ↦ some session.shared_key
]

abbrev pub found : {A : Type 0} → Option A → Client A
found none = fail no_session
found (some a) = pure a
