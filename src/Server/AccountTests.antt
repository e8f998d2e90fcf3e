-- ===== src/Server/AccountTests.antt =====
-- An invite code that registers an account.
use monitor_backend.Base.{
  ◌≡◌, ◌≢◌, refl, String, Bool, true, false, none, some, [], ◌∷◌, ◌==◌, ◌&&◌, string_eq, nat_eq,
  arith,
}
use monitor_backend.Base.Results.{Result, ok}
use monitor_backend.Hub.{new_hub}
use monitor_backend.Server.{User, InviteCode, Store}
use monitor_backend.Server.Accounts.{authorized_modes, allows}
use monitor_backend.Server.Accounts.Registering.{
  Registration, Credentials, new_user, handle_register, normalize_invite_code,
}
use monitor_backend.BossCycle.{contains_session_id}
use monitor_backend.Server.Accounts.Admin.{is_known_mode}
use monitor_backend.Server.Accounts.Modes.{authorized_modes-allows}
use monitor_backend.Server.Accounts.Consuming.{OneCode, handle_register-once}

abbrev code : InviteCode
code = record {
  id = 3;
  code = "AB12CD";
  created_by = 1;
  used_by = none;
  expires_at = 5000;
  used_at = none;
}

abbrev store : Store
store = record {
  users = [];
  invites = code ∷ [];
  sessions = [];
  receipts = [];
  world = record { teams = []; members = []; hub = new_hub };
}

abbrev ann : Credentials
ann = record {
  username = "ann";
  nickname = "Ann";
  password = "long enough";
  invite_code = " ab12cd";
}

abbrev bob : Credentials
bob = record {
  username = "bob";
  nickname = "Bob";
  password = "long enough";
  invite_code = "AB12CD";
}

abbrev healthy : Registration
healthy = record {
  reads = true;
  begins = true;
  locks = true;
  inserts = true;
  consumes = true;
  commits = true;
}

abbrev same_name : String → String → Bool
same_name a b = a == b

abbrev hash : String → Result String
hash password = ok password

abbrev after : Store
after = record store {
  users = new_user 9 "ann" "Ann" "long enough" ∷ [];
  invites = record code { used_by = some 9; used_at = some 1001 } ∷ [];
}

registers : handle_register healthy same_name hash true 9 1000 1001 ann store ≡ ok (after, 9)
unfolding handle_register
registers = refl

one_code : OneCode store.invites
one_code c = ground arith

same_codes : normalize_invite_code ann.invite_code ≡ normalize_invite_code bob.invite_code
unfolding normalize_invite_code
same_codes = refl

handle_register-once_example :
    handle_register healthy same_name hash true 10 2000 2001 bob after ≢ ok (after, 10)
handle_register-once_example =
    handle_register-once healthy healthy same_name hash true true 9 1000 1001 10 2000 2001 ann bob
      store (after, 9) (after, 10) one_code same_codes registers

abbrev healer : User
healer = record (new_user 9 "ann" "Ann" "hash") { follow_heal = true; dead = false }

authorized_modes-allows_example :
    contains_session_id (authorized_modes healer) "follow_heal"
    ≡ (is_known_mode "follow_heal" && allows healer "follow_heal")
authorized_modes-allows_example = authorized_modes-allows healer "follow_heal"
