-- ===== src/Relay/Sessions.antt =====
-- The methods of SessionManager that concern one node: its session, its ban, its subscriptions.
use enxame.Base.{
  ℕ, ◌+◌, ◌-◌, ◌%◌, String, Bool, true, false, List, [], ◌∷◌, Option, none, some, ◌==◌,
  if◌then◌else◌,
}
use Prim.Native.String
use Prim.Native.String.{slice}
use enxame.Base.Dict.{lookup, insert, delete, has, keys}
use enxame.Base.Exec.{Exec, ok, panic, ◌>>=◌, ◌>>◌, pure, gets, modify, refuse_if, log_id}
use enxame.Relay.Types.{Session, SessionManager, Error, node_blacklisted}

abbrev pub Relay : Type 0 → Type 0
Relay A = Exec SessionManager Error A

-- What the machine supplies to one call: the time, its rendering by time.Format, and the readings
-- of the clock that randomHex makes, one for each digit.
pub record Clock : Type 0 where
  pub now : ℕ
  pub stamp : String
  pub nanos : List ℕ

abbrev pub letters : String
letters = "0123456789abcdef"

unfoldable pub random_hex : List ℕ → String
random_hex [] = ""
random_hex (t ∷ ts) = String.◌++◌ (slice letters (t % 16) (t % 16 + 1)) (random_hex ts)

unfoldable pub generate_session_id : Clock → String
unfolding random_hex
generate_session_id c = String.◌++◌ c.stamp (random_hex c.nanos)

-- Writes to the heap.
abbrev pub update : (ℕ → Option Session) → ℕ → Session → ℕ → Option Session
update h a s b = if b == a then some s else h b

abbrev pub new_session : Clock → String → List ℕ → Session
new_session c node_id public_key = record {
  node_id = node_id;
  public_key = public_key;
  session_id = generate_session_id c;
  connected_at = c.now;
  last_activity = c.now;
  send_chan = record { buffer = []; closed = false };
}

abbrev alloc : Session → Relay ℕ
alloc s m = (ok m.next, record m { heap = update m.heap m.next s; next = m.next + 1 })

-- close(session.SendChan): a second close panics.
close_session : Option Session → ℕ → Relay Unit
close_session none a m = (panic, m)
close_session (some s) a m = if s.send_chan.closed then (panic, m) else (
  ok tt,
  record m {
    heap = update m.heap a (record s { send_chan = record s.send_chan { closed = true } });
  },
)

abbrev close_chan : ℕ → Relay Unit
close_chan a m = close_session (m.heap a) a m

-- sessions.LoadAndDelete
abbrev load_and_delete : String → Relay (Option ℕ)
load_and_delete n m = (ok (lookup n m.sessions), record m { sessions = delete n m.sessions })

unfoldable pub is_blacklisted : String → SessionManager → Bool
is_blacklisted n m = has n m.blacklist

-- "Fecha sessão anterior se existir"
close_old : String → Option ℕ → Relay Unit
unfolding close_session
close_old n none = pure tt
close_old n (some a) = do close_chan a; log_id n

unfoldable pub register_session : Clock → String → List ℕ → Relay ℕ
unfolding close_old is_blacklisted generate_session_id
register_session c node_id public_key = do
  banned ← gets (is_blacklisted node_id)
  refuse_if banned node_blacklisted
  a ← alloc (new_session c node_id public_key)
  old ← load_and_delete node_id
  close_old node_id old
  modify (λ m. record m { sessions = insert node_id a m.sessions })
  modify (λ m. record m { active_connections = m.active_connections + 1 })
  log_id node_id
  log_id (generate_session_id c)
  pure a

close_loaded : String → Option ℕ → Relay Unit
unfolding close_session
close_loaded n none = pure tt
close_loaded n (some a) = do
  close_chan a
  modify (λ m. record m { active_connections = m.active_connections - 1 })
  log_id n

unfoldable pub unregister_session : String → Relay Unit
unfolding close_loaded
unregister_session node_id = do found ← load_and_delete node_id; close_loaded node_id found

unfoldable pub touch : ℕ → Option Session → ℕ → SessionManager → SessionManager
touch now none a m = m
touch now (some s) a m = record m { heap = update m.heap a (record s { last_activity = now }) }

get_found : ℕ → Option ℕ → Relay (Option ℕ)
unfolding touch
get_found now none m = (ok none, m)
get_found now (some a) m = (ok (some a), touch now (m.heap a) a m)

-- The session's address, with its last activity renewed.
unfoldable pub get_session : ℕ → String → Relay (Option ℕ)
unfolding get_found
get_session now node_id m = get_found now (lookup node_id m.sessions) m

unfoldable pub add_to_blacklist : ℕ → String → Relay Unit
add_to_blacklist now node_id = do
  modify (λ m. record m { blacklist = insert node_id now m.blacklist })
  log_id node_id
  unregister_session node_id

unfoldable pub remove_from_blacklist : String → Relay Unit
remove_from_blacklist node_id = do
  modify (λ m. record m { blacklist = delete node_id m.blacklist })
  log_id node_id

unfoldable pub get_connected_node_ids : SessionManager → List String
get_connected_node_ids m = keys m.sessions

unfoldable pub get_stats : SessionManager → ℕ × ℕ
get_stats m = (m.active_connections, m.messages_relayed)
