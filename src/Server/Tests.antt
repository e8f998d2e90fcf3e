-- ===== src/Server/Tests.antt =====
-- Sessions of an account with two clients.
use monitor_backend.Base.{
  if◌then◌else◌, ◌≤◌, ◌<◌, ◌≡◌, refl, inl, inr, String, true, false, some, [], ◌∷◌, ◌++◌, ◌==◌,
  string_eq, nat_eq, eq_iff, arith, lookup, subst, Bool-cases,
}
use monitor_backend.Base.Results.{ok, err}
use monitor_backend.BossCycle.{find, has}
use monitor_backend.Server.{User, Session, Store, client_count, has_id}
use monitor_backend.Server.Rows.{amount}
use monitor_backend.Server.Sessions.{
  Binding, Draw, active_user, insert_session, ensure_device_session,
}
use monitor_backend.Server.Counts.{Keyed, Binds}
use monitor_backend.Server.Limits.{ensure_device_session-limit}
use monitor_backend.Server.Rebinding.{ensure_device_session-again}
use monitor_backend.Hub.{notify_clients}
use monitor_backend.Server.{with_hub}
use monitor_backend.Server.Clients.{handle_save_client_role_name}
use monitor_backend.Server.Renames.{handle_save_client_role_name-again}
use monitor_backend.Server.Sessions.{collides, new_session}
use monitor_backend.Server.Attempts.{ensure_device_session-attempts}
use monitor_backend.Server.Samples.{id_a, id_b, id_c, hub, user, session, store}

abbrev healthy : Binding
healthy = record { begins = true; selects = true; counts = true; writes = true; commits = true }

abbrev draw : Draw
draw = record { id = id_c; names = λ left. "name"; now = 5 }

abbrev third : Session
third = record (session id_c "client-c" "") {
  name = "name";
  mode = "dead";
  running = false;
  created_at = 5;
}

abbrev bound_store : Store
bound_store = record store { sessions = store.sessions ++ (third ∷ []) }

binds :
    ensure_device_session healthy draw 7 "client-c" true store ≡ ok (bound_store, (id_c, "name"))
unfolding ensure_device_session insert_session client_count
binds = refl

store-Keyed : Keyed store.sessions
store-Keyed id = elim (Bool-cases (id_a == id)) [
  | inl t ↦ subst (λ i. amount (has_id i) store.sessions ≤ 1) ((eq_iff id_a id).0 t) (omega arith)
  | inr f ↦ rw f (ground arith)
]

ensure_device_session-limit_example :
    (u : User) × (find (active_user 7) store.users ≡ some u)
    × (Keyed bound_store.sessions × Binds u store.sessions bound_store.sessions)
ensure_device_session-limit_example =
    ensure_device_session-limit healthy draw 7 "client-c" true store bound_store id_c "name"
      store-Keyed binds

ensure_device_session-again_example :
    ensure_device_session healthy draw 7 "client-c" false bound_store
    ≡ ok (bound_store, (id_c, "name"))
ensure_device_session-again_example =
    ensure_device_session-again healthy healthy draw draw 7 "client-c" true false store bound_store
      (id_c, "name") refl refl refl binds

-- Both clients form a team, whose leader is "a".
-- "Annie" is saved for the first client.
abbrev renamed_store : Store
renamed_store = with_hub (notify_clients 7 hub) (record store {
  sessions = session id_a "client-a" "Annie" ∷ session id_b "client-b" "Bob" ∷ [];
})

renames : handle_save_client_role_name true 7 "client-a" " Annie" store ≡ ok renamed_store
unfolding handle_save_client_role_name lookup notify_clients
renames = refl

handle_save_client_role_name-again_example :
    handle_save_client_role_name true 7 "client-a" " Annie" renamed_store ≡ err "client_not_found"
handle_save_client_role_name-again_example =
    handle_save_client_role_name-again 7 "client-a" " Annie" store renamed_store renames

-- The first name drawn is taken.
abbrev taken_first : Draw
taken_first = record draw { names = λ left. if left == 19 then "client-a" else "name" }

free_name :
    has (collides (new_session 7 "client-c" taken_first (taken_first.names 0))) store.sessions
    ≡ false
free_name = refl

below_limit : client_count 7 store.sessions < 3
unfolding client_count
below_limit = omega arith

ensure_device_session-attempts_example :
    (after : Store) × (name : String) × (ensure_device_session healthy taken_first 7 "client-c" true
        store
      ≡ ok (after, (id_c, name)))
ensure_device_session-attempts_example =
    ensure_device_session-attempts healthy taken_first 7 0 "client-c" true store user
      (refl, refl, refl, refl, refl) refl refl below_limit (omega arith) free_name
