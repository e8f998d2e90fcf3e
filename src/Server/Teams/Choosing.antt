-- ===== src/Server/Teams/Choosing.antt =====
-- `handleSaveRopeTeam`: the checks of the request and of the chosen sessions.
use Prim.Native.String.{len}
use monitor_backend.Base.{
  ℕ, String, Bool, false, not, ◌||◌, Option, none, some, List, [], ◌∷◌, ◌==◌, string_eq, nat_eq,
  ltb, length,
}
use monitor_backend.Base.Results.{Result, ok, err, ◌>>=◌, ◌>>◌, refuse_if}
use monitor_backend.Hub.Watching.{client_status}
use monitor_backend.BossCycle.{find, contains_session_id}
use monitor_backend.Server.{Session, Store, is_active_of, valid_role_name}

-- Which statements succeed: `writes` is the writes of the transaction and its commit, `resets` the
-- update that follows a failed command, and `reloads` the queries of the answer.
pub record Statements : Type 0 where
  pub begins : Bool
  pub reads_role : String → Bool
  pub selects_team : Bool
  pub loads_team : Bool
  pub writes : Bool
  pub resets : Bool
  pub reloads : Bool

-- The first loop over the chosen sessions: whether the leader is one of them.
unfoldable pub select_members : List String → String → Bool → List String → Result Bool
unfolding contains_session_id
select_members seen leader selected [] = ok selected
select_members seen leader selected (id ∷ ids) =
    refuse_if (not (len id == 36) || contains_session_id seen id) "invalid_team_members"
    >> select_members (id ∷ seen) leader (selected || id == leader) ids

unfoldable pub check_request : String → List String → Result (Unit {0})
unfolding select_members
check_request leader ids = do
  refuse_if (ltb (length ids) 1 || ltb 5 (length ids)) "invalid_team_size"
  selected ← select_members [] leader false ids
  refuse_if (not selected) "leader_not_selected"

abbrev pub found_role : Option Session → Result String
found_role none = err "client_not_found"
found_role (some s) = ok s.role_name

-- The second loop: the role name of each session, all of them different.
unfoldable pub read_roles :
    Statements → ℕ → Store → List String → List String → Result (List (String × String))
unfolding contains_session_id client_status valid_role_name
read_roles db user st used [] = ok []
read_roles db user st used (id ∷ ids) = do
  refuse_if (not (client_status id st.world.hub).0) "team_member_offline"
  refuse_if (not (db.reads_role id)) "internal_error"
  role ← found_role (find (is_active_of user id) st.sessions)
  refuse_if (not (valid_role_name role)) "role_name_required"
  refuse_if (contains_session_id used role) "duplicate_role_name"
  roles ← read_roles db user st (role ∷ used) ids
  ok ((id, role) ∷ roles)
