-- ===== src/Server/Samples.antt =====
-- Sample rows for the tests: an account with two clients that run in the temple mode.
use monitor_backend.Base.{String, true, false, none, some, [], ◌∷◌, string_eq, nat_eq}
use monitor_backend.Hub.{Hub, Room, new_hub, new_room}
use monitor_backend.Server.{User, Session, Store}

abbrev pub client_room : Room
client_room = record new_room {
  publisher = "c1";
  user_id = 7;
  controls = some [];
  client_state = record { mode = "temple"; running = true };
  connected = true;
}

abbrev pub id_a : String
id_a = "aaaaaaaa-aaaa-4aaa-8aaa-aaaaaaaaaaaa"

abbrev pub id_b : String
id_b = "bbbbbbbb-bbbb-4bbb-8bbb-bbbbbbbbbbbb"

abbrev pub id_c : String
id_c = "cccccccc-cccc-4ccc-8ccc-cccccccccccc"

abbrev pub hub : Hub
hub = record new_hub { rooms = (id_a, client_room) ∷ (id_b, client_room) ∷ [] }

abbrev pub user : User
user = record {
  id = 7;
  username = "rock";
  nickname = "Rock";
  password_hash = "h";
  active = true;
  is_super_admin = false;
  max_client_count = 3;
  dead = true;
  live = true;
  temple = true;
  follow_heal = false;
  monitor = false;
}

abbrev pub session : String → String → String → Session
session id client role = record {
  id = id;
  user_id = 7;
  client_id = some client;
  name = client;
  role_name = role;
  mode = "temple";
  running = true;
  active = true;
  created_at = 1;
  last_publish_at = none;
}

abbrev pub store : Store
store = record {
  users = user ∷ [];
  invites = [];
  sessions = session id_a "client-a" "Ann" ∷ session id_b "client-b" "Bob" ∷ [];
  receipts = [];
  world = record { teams = []; members = []; hub = hub };
}
