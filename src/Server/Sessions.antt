-- ===== src/Server/Sessions.antt =====
-- The client sessions of an account: `ensureDeviceSession` of internal/api/server.go.
use monitor_backend.Base.{
  ℕ, zero, suc, String, Bool, true, false, not, ◌&&◌, ◌||◌, Option, none, some, List, [], ◌∷◌, ◌++◌,
  ◌==◌, string_eq, nat_eq, if◌then◌else◌, leb, is_some,
}
use monitor_backend.Base.Results.{Result, ok, err, ◌>>=◌, ◌>>◌, refuse_if}
use monitor_backend.BossCycle.{find, has, update_where}
use monitor_backend.Server.{User, Session, Store, is_bound_to, has_id, client_count}

-- Which statements of `ensureDeviceSession` succeed; an insert of a duplicate key is not among them.
pub record Binding : Type 0 where
  pub begins : Bool
  pub selects : Bool
  pub counts : Bool
  pub writes : Bool
  pub commits : Bool

-- What the server draws at random, and the time of the insert: the id of a new session, and a name
-- for each attempt, by the number of attempts that follow it.
pub record Draw : Type 0 where
  pub id : String
  pub names : ℕ → String
  pub now : ℕ

abbrev pub active_user : ℕ → User → Bool
active_user user u = u.id == user && u.active

abbrev pub new_session : ℕ → String → Draw → String → Session
new_session user client d name = record {
  id = d.id;
  user_id = user;
  client_id = some client;
  name = name;
  role_name = "";
  mode = "dead";
  running = false;
  active = true;
  created_at = d.now;
  last_publish_at = none;
}

-- A row with the same id, the same user and client, or the same name: error 1062.
abbrev pub collides : Session → Session → Bool
collides new s =
    s.id == new.id
    || (is_some new.client_id
        && elim new.client_id [ none ↦ false | some c ↦ is_bound_to new.user_id c s ])
    || s.name == new.name

-- The loop of attempts to insert the row under a fresh name.
unfoldable pub insert_session :
    ℕ → ℕ → String → Draw → List Session → Result (List Session × String)
insert_session zero user client d ss = err "duplicate"
insert_session (suc left) user client d ss =
    let rest = insert_session left user client d ss in
    let row = new_session user client d (d.names left) in
    if has (collides row) ss then rest else ok (ss ++ (row ∷ []), d.names left)

abbrev pub attempts : ℕ
attempts = 20

abbrev pub rebound : Session → Session
rebound s = record s { active = true; running = false }

abbrev pub is_full : User → List Session → Bool
is_full u ss = leb u.max_client_count (client_count u.id ss)

-- The session of a client that is revoked is bound again if that is allowed.
abbrev pub bind_again :
    Binding → Bool → User → List Session → Session → Result (List Session × (String × String))
bind_again db allow_rebind u ss s = do
  refuse_if (not allow_rebind) "client_unbound"
  refuse_if (not db.counts) "internal_error"
  refuse_if (is_full u ss) "client_limit_reached"
  refuse_if (not db.writes) "internal_error"
  ok (update_where (has_id s.id) rebound ss, (s.id, s.name))

abbrev pub bind_known :
    Binding → Bool → User → List Session → Session → Result (List Session × (String × String))
bind_known db allow_rebind u ss s =
    if s.active then ok (ss, (s.id, s.name)) else bind_again db allow_rebind u ss s

abbrev pub with_id :
    String → Result (List Session × String) → Result (List Session × (String × String))
with_id id (err why) = err why
with_id id (ok i) = ok (i.0, (id, i.1))

abbrev pub bind_new :
    Binding → Draw → User → String → List Session → Result (List Session × (String × String))
bind_new db d u client ss = do
  refuse_if (not db.counts) "internal_error"
  refuse_if (is_full u ss) "client_limit_reached"
  refuse_if (not db.writes) "internal_error"
  with_id d.id (insert_session attempts u.id client d ss)

abbrev pub bind :
    Binding
    → Draw
    → Bool
    → String
    → List Session
    → Option Session
    → User
    → Result (List Session × (String × String))
bind db d allow_rebind client ss none u = bind_new db d u client ss
bind db d allow_rebind client ss (some s) u = bind_known db allow_rebind u ss s

abbrev pub commit_binding :
    Bool → Store → List Session × (String × String) → Result (Store × (String × String))
commit_binding commits st (ss, names) =
    refuse_if (not commits) "internal_error" >> ok (record st { sessions = ss }, names)

-- What follows the query of the account.
abbrev pub bind_for :
    Binding → Draw → String → Bool → Store → Option User → Result (Store × (String × String))
bind_for db d client allow_rebind st none = err "internal_error"
bind_for db d client allow_rebind st (some u) =
    refuse_if (not db.selects) "internal_error"
    >> (bind db d allow_rebind client st.sessions (find (is_bound_to u.id client) st.sessions) u
        >>= commit_binding db.commits st)

-- The store after the transaction, and the id and the name of the client's session.
unfoldable pub ensure_device_session :
    Binding → Draw → ℕ → String → Bool → Store → Result (Store × (String × String))
unfolding insert_session client_count
ensure_device_session db d user client allow_rebind st =
    refuse_if (not db.begins) "internal_error"
    >> bind_for db d client allow_rebind st (find (active_user user) st.users)
