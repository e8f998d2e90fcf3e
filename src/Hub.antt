-- ===== src/Hub.antt =====
-- internal/realtime/hub.go: the rooms of the device sessions, the monitor claims and the observers.
-- What runs under one lock is one step of the hub's state. A function that is called `Publish` or
-- `AttachDevice` and takes two locks in turn is the composition of its steps, and `Hub.Runs` has the
-- histories in which other steps come between them.
-- Strings that are absent in a Go map read as "". User ids, which the database counts from 1, are
-- natural numbers, and 0 is no user. `now` is `time.Now()` in milliseconds.
pub mod Devices
pub mod Publishing
pub mod Commands
pub mod Watching
pub mod Claims
pub mod ClaimSteps
pub mod PublishCases
pub mod PublishSteps
pub mod QuietSteps
pub mod QuietClaims
pub mod Runs
pub mod Exclusion
pub mod Channels
pub mod Broadcasts
pub mod Conflicts
pub mod Queues
pub mod Gains
mod Tests
mod GainTests
use monitor_backend.Base.{
  ℕ, String, Bool, true, false, ◌&&◌, Option, none, some, List, [], ◌∷◌, ◌==◌, string_eq, nat_eq,
  if◌then◌else◌, Map, lookup, insert, map_values,
}
use monitor_backend.Json.{Json}
use monitor_backend.Protocol.{
  ClientStatePayload, ClientCommand, Envelope, Snapshot, zero_client_state,
}

-- What a controls channel carries: a marshalled command, or the nil that ends the connection.
pub data Frame : Type 0 where
  command : ClientCommand → Frame
  hang_up : Frame

-- What a viewer's channel carries: a device's message passed on, or a marshalled snapshot.
pub data ViewerMessage : Type 0 where
  forwarded : Envelope → ViewerMessage
  snapshot_of : Snapshot → ViewerMessage

-- A channel of capacity one is what it holds.
pub record Room : Type 0 where
  pub publisher : String
  pub user_id : ℕ
  pub controls : Option (List Frame)
  pub viewers : Map String (Option ViewerMessage)
  pub latest_map : Option Json
  pub latest_frame : Option Json
  pub latest_status : Option Json
  pub latest_exp : Option Json
  pub latest_rune : Option Json
  pub latest_verification : Option Json
  pub latest_zone : Option Json
  pub latest_gain : Option Json
  pub client_state : ClientStatePayload
  pub connected : Bool
  pub online : Bool
  pub updated_at : ℕ

-- An observer's channel of capacity one holds a signal or none.
pub record Hub : Type 0 where
  pub rooms : Map String Room
  pub active_monitors : Map ℕ String
  pub client_observers : Map ℕ (Map String Bool)
  pub closed : Bool

abbrev pub new_hub : Hub
new_hub = record { rooms = []; active_monitors = []; client_observers = []; closed = false }

abbrev pub new_room : Room
new_room = record {
  publisher = "";
  user_id = 0;
  controls = none;
  viewers = [];
  latest_map = none;
  latest_frame = none;
  latest_status = none;
  latest_exp = none;
  latest_rune = none;
  latest_verification = none;
  latest_zone = none;
  latest_gain = none;
  client_state = zero_client_state;
  connected = false;
  online = false;
  updated_at = 0;
}

abbrev pub room_or_new : Option Room → Room
room_or_new none = new_room
room_or_new (some r) = r

-- `h.room(sessionID)`: the room, made if there is none; `set_room` writes it back.
abbrev pub room : String → Hub → Room
room session h = room_or_new (lookup session h.rooms)

abbrev pub set_room : String → Room → Hub → Hub
set_room session r h = record h { rooms = insert session r h.rooms }

-- The test `Mode == "monitor" && Running`.
abbrev pub is_monitoring : ClientStatePayload → Bool
is_monitoring s = s.mode == "monitor" && s.running

unfoldable pub snapshot : Room → Snapshot
snapshot r = record {
  type = "snapshot";
  online = r.online;
  connected = r.connected;
  client_state = if r.client_state.mode == "" then none else some r.client_state;
  map = r.latest_map;
  frame = r.latest_frame;
  status = r.latest_status;
  exp = r.latest_exp;
  rune = r.latest_rune;
  verification = r.latest_verification;
  zone = r.latest_zone;
  gain = r.latest_gain;
  updated_at = r.updated_at;
}

-- A select that sends if the channel has room.
abbrev pub try_send : ViewerMessage → Option ViewerMessage → Option ViewerMessage
try_send m none = some m
try_send m (some held) = some held

-- The nested selects of `broadcast` at one viewer: send; if the channel is full, take what it holds; and
-- send if there is room now. Other broadcasts of the room hold the read lock too, and may run in between.
pub data Stage : Type 0 where
  sending : Stage
  draining : Stage
  resending : Stage
  finished : Stage

pub record Sending : Type 0 where
  pub message : ViewerMessage
  pub stage : Stage

abbrev pub first_send : ViewerMessage → Option ViewerMessage → Stage
first_send m none = finished
first_send m (some held) = draining

abbrev pub next_stage : Stage → ViewerMessage → Option ViewerMessage → Stage
next_stage sending m held = first_send m held
next_stage draining m held = resending
next_stage resending m held = finished
next_stage finished m held = finished

abbrev pub next_channel : Stage → ViewerMessage → Option ViewerMessage → Option ViewerMessage
next_channel sending m held = try_send m held
next_channel draining m held = none
next_channel resending m held = try_send m held
next_channel finished m held = held

abbrev pub send_step : Sending × Option ViewerMessage → Sending × Option ViewerMessage
send_step (b, held) =
    (record b { stage = next_stage b.stage b.message held }, next_channel b.stage b.message held)

-- A broadcast without others in between.
abbrev pub offer : ViewerMessage → Option ViewerMessage → Option ViewerMessage
offer m held = (send_step (send_step (send_step (record { message = m; stage = sending }, held)))).1

unfoldable pub broadcast : ViewerMessage → Room → Room
broadcast m r = record r { viewers = map_values (offer m) r.viewers }

unfoldable pub broadcast_snapshot : Room → Room
unfolding broadcast snapshot
broadcast_snapshot r = broadcast (snapshot_of (snapshot r)) r

-- The select with an empty default: a full channel keeps its signal.
abbrev pub signal : Bool → Bool
signal false = true
signal true = true

abbrev signal_all : ℕ → Option (Map String Bool) → Map ℕ (Map String Bool) → Map ℕ (Map String Bool)
signal_all user none m = m
signal_all user (some observers) m = insert user (map_values signal observers) m

unfoldable pub notify_client_observers : ℕ → Hub → Hub
notify_client_observers user h = if user == 0 then h else record h {
  client_observers = signal_all user (lookup user h.client_observers) h.client_observers;
}

unfoldable pub notify_clients : ℕ → Hub → Hub
unfolding notify_client_observers
notify_clients user h = notify_client_observers user h
