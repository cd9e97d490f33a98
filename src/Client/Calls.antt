-- ===== src/Client/Calls.antt =====
-- The calls of a client, in any order.
use enxame.Base.{ℕ, String, List, [], ◌∷◌, Option}
use enxame.Relay.Types.{Envelope}
use enxame.Client.{EnxameClient, Library, World}
use enxame.Client.Outbox.{initiate_handshake}
use enxame.Client.Dispatch.{handle_message}
use enxame.Client.Sending.{send_message}
use enxame.Client.Hub.{save_wiki_page, set_channel_config, create_tag, tag_message}
use enxame.Client.Core.{
  Answer, create_channel, join_channel, update_channel_avatar, keep_token, logout,
}
use enxame.Client.Files.{Read, send_file, save_file_to_disk}

pub data Call : Type 0 where
  receives : Envelope → Call
  sends : String → String → Call
  sends_file : (List ℕ → Read) → String → String → Option (List ℕ) → Call
  saves_file : String → String → Call
  greets : String → Call
  creates_channel : List ℕ → (String → String → Answer String) → String → Call
  joins : String → Call
  saves_page : String → String → String → Call
  sets_config : String → String → String → Call
  creates_tag : String → String → String → Call
  tags : String → String → String → Call
  updates_avatar : (String → String → String → ℕ → List ℕ → Answer Unit) → String → String → Call
  logs_in : Answer String → Call
  logs_out : Call

module _ (lib : Library) where
  unfoldable pub step : World → Call → EnxameClient → EnxameClient
  step w (receives env) c = (handle_message lib w env c).1
  step w (sends target message) c = (send_message lib w target message c).1
  step w (sends_file read target path content) c = (send_file lib w read target path content c).1
  step w (saves_file id dest) c = (save_file_to_disk lib w id dest c).1
  step w (greets target) c = (initiate_handshake lib w target c).1
  step w (creates_channel key call name) c = (create_channel lib w key call name c).1
  step w (joins channel) c = (join_channel lib w channel c).1
  step w (saves_page channel title content) c = (save_wiki_page lib w channel title content c).1
  step w (sets_config channel key val) c = (set_channel_config lib w channel key val c).1
  step w (creates_tag channel name color) c = (create_tag lib w channel name color c).1
  step w (tags channel message tag) c = (tag_message lib w channel message tag c).1
  step w (updates_avatar call channel avatar) c =
      (update_channel_avatar lib w call channel avatar c).1
  step w (logs_in answer) c = (keep_token w answer c).1
  step w logs_out c = (logout w c).1

  unfoldable pub run : List (World × Call) → EnxameClient → EnxameClient
  run [] c = c
  run ((w, call) ∷ calls) c = run calls (step w call c)
