-- ===== src/Server/Joins.antt =====
-- The part of `handleDeviceWebSocket` in internal/api/server.go for the message "team_joined".
use monitor_backend.Base.{
  ℕ, some, String, Bool, true, false, not, ◌&&◌, ◌||◌, List, [], ◌∷◌, ◌++◌, ◌==◌, string_eq, nat_eq,
  if◌then◌else◌,
}
use monitor_backend.Base.Int.{ℤ, pos, int_beq}
use monitor_backend.Protocol.{TeamJoinedPayload}
use monitor_backend.Hub.{notify_clients}
use monitor_backend.Hub.Commands.{send_command, blank_command}
use monitor_backend.BossCycle.{Team, Member, has, update_where}
use monitor_backend.Server.{Store, with_hub}
use monitor_backend.Server.Teams.Configuring.{notify_user}

abbrev pub with_member_rows : List Member → Store → Store
with_member_rows ms st = record st { world = record st.world { members = ms } }

-- `rtm.team_id = ? AND rtm.session_id = ?`, and a team of that id and user exists: the join.
abbrev pub owns : ℕ → ℤ → Team → Bool
owns user team t = int_beq (pos t.id) team && t.user_id == user

abbrev pub is_row : ℕ → String → ℤ → List Team → Member → Bool
is_row user session team ts m =
    int_beq (pos m.team_id) team && (m.session_id == session && has (owns user team) ts)

abbrev pub set_joined : ℕ → Member → Member
set_joined now m = record m { invited = true; joined = true; joined_at = some now }

abbrev pub join_rows : ℕ → ℕ → String → ℤ → List Team → List Member → List Member
join_rows now user session team ts ms =
    update_where (is_row user session team ts) (set_joined now) ms

abbrev pub is_joined_row : ℕ → String → ℤ → List Team → Member → Bool
is_joined_row user session team ts m = is_row user session team ts m && m.joined

-- A receipt has one row: its primary key is `receipt_id`.
abbrev pub is_receipt : String → String × String → Bool
is_receipt receipt (r, s) = r == receipt

abbrev pub is_receipt_of : String → String → String × String → Bool
is_receipt_of receipt session (r, s) = r == receipt && s == session

abbrev pub acknowledge_join : String → ℕ → TeamJoinedPayload → Store → Store
acknowledge_join session taken p st =
    with_hub
      (send_command session
        (record blank_command {
          action = "team_joined_ack";
          team_id = p.team_id;
          receipt_id = p.receipt_id;
        })
        taken st.world.hub).0
      st

-- The rows of the members and the receipts after a join, and whether a row changes. Without a receipt
-- the row of the session is updated; with one, only if the receipt is new and the row is there.
abbrev pub joined_tables :
    ℕ
    → ℕ
    → String
    → TeamJoinedPayload
    → List Team
    → List Member
    → List (String × String)
    → List Member × List (String × String) × Bool
joined_tables now user session p ts ms rs =
    let present = has (is_row user session p.team_id ts) ms in
    if p.receipt_id == ""
    then (join_rows now user session p.team_id ts ms, rs, present)
    else if not present || has (is_receipt p.receipt_id) rs
    then (ms, rs, false)
    else (join_rows now user session p.team_id ts ms, rs ++ ((p.receipt_id, session) ∷ []), true)

abbrev pub write_join : ℕ → ℕ → String → TeamJoinedPayload → Store → Store × Bool
write_join now user session p st =
    let (ms, rs, changed) =
      joined_tables now user session p st.world.teams st.world.members st.receipts in
    (record (with_member_rows ms st) { receipts = rs }, changed)

abbrev pub is_confirmed : ℕ → String → TeamJoinedPayload → Store → Bool
is_confirmed user session p st =
    if p.receipt_id == ""
    then has (is_joined_row user session p.team_id st.world.teams) st.world.members
    else has (is_receipt_of p.receipt_id session) st.receipts

abbrev pub notify_if : Bool → ℕ → Store → Store
notify_if changed user st = if changed then notify_user user st.world.hub st else st

-- The message "team_joined". `commits` is whether its writes succeed, and `reads` the query that
-- confirms the join before it is acknowledged; `now` is the time at which they write.
unfoldable pub mark_team_joined :
    Bool → Bool → ℕ → ℕ → String → TeamJoinedPayload → ℕ → Store → Store
unfolding send_command notify_clients
mark_team_joined commits reads now user session p taken st =
    if not commits
    then st
    else (let (joined, changed) = write_join now user session p st in
        let told = notify_if changed user joined in
        if reads && is_confirmed user session p told
        then acknowledge_join session taken p told
        else told)
