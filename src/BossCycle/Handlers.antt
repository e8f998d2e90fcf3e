-- ===== src/BossCycle/Handlers.antt =====
-- The other functions of the cycle. Where the code returns on an error of the database, `commits` is
-- whether every statement of the transaction succeeds: if one fails, nothing is written or sent.
use monitor_backend.Base.{
  ℕ, String, Bool, not, ◌&&◌, ◌||◌, Option, none, some, List, [], ◌∷◌, ◌==◌, string_eq, nat_eq,
  if◌then◌else◌, keep, length, ltb,
}
use monitor_backend.Base.Int.{pos, int_beq}
use monitor_backend.Protocol.{ClientCommand, RopePartyProgressPayload}
use monitor_backend.Hub.{Hub, notify_clients}
use monitor_backend.Hub.Commands.{send_command, blank_command}
use monitor_backend.BossCycle.{
  Team, Member, World, Taken, find, has, update_where, in_team, is_member, in_cycle, set_state,
  rope_team_pending_cycle_session_ids, active_temple_client_session_ids, is_active_temple_client,
  send_all,
}
use monitor_backend.BossCycle.Starting.{set_completed, is_empty, invite_command}

abbrev pub cycle_command : String → ℕ → ℕ → ClientCommand
cycle_command action team cycle = record blank_command {
  action = action;
  team_id = pos team;
  cycle_id = pos cycle;
}

-- `WHERE id = ? AND user_id = ? AND boss_cycle_id = ?`, with the ids of a progress message.
abbrev pub is_progress_of : ℕ → RopePartyProgressPayload → Team → Bool
is_progress_of user p t =
    int_beq (pos t.id) p.team_id && t.user_id == user && int_beq (pos t.boss_cycle_id) p.cycle_id

abbrev pub is_open : Team → Bool
is_open t = t.boss_cycle_state == "inviting" || t.boss_cycle_state == "casting"

abbrev pub cast : ℕ → Taken → List String → Team → World → World
cast user taken online t w =
    let hub = send_all online (cycle_command "cast_boss_buffs" t.id t.boss_cycle_id) taken w.hub in
    record w {
      teams = update_where (in_cycle t.id t.boss_cycle_id "inviting") (set_state "casting") w.teams;
      hub = notify_clients user hub;
    }

abbrev pub joined_team : ℕ → String → Taken → World → Option Team → World
joined_team user session taken w none = w
joined_team user session taken w (some t) =
    let pending = rope_team_pending_cycle_session_ids t.id t.boss_cycle_id w.members in
    if not (t.leader_session_id == session) || is_empty pending
    then w
    else cast user taken (active_temple_client_session_ids w.hub pending) t w

-- The state is "inviting" or "casting", and the update of an "inviting" row leaves any other alone.
unfoldable pub mark_boss_joined :
    Bool → ℕ → String → RopePartyProgressPayload → Taken → World → World
unfolding rope_team_pending_cycle_session_ids active_temple_client_session_ids send_all
    notify_clients
mark_boss_joined commits user session p taken w =
    if commits
    then joined_team user session taken w (find (λ t. is_progress_of user p t && is_open t) w.teams)
    else w

-- The database reports a row as affected only if the update changes it.
abbrev pub is_uncompleted : ℕ → String → ℕ → Member → Bool
is_uncompleted team session cycle m =
    is_member team session m && not (m.boss_completed_cycle_id == cycle)

-- The loop of `skipInactiveBossCycleParticipants` over the pending sessions.
unfoldable pub skip_inactive : Hub → ℕ → ℕ → List String → List Member → List Member
skip_inactive hub team cycle [] ms = ms
skip_inactive hub team cycle (id ∷ ids) ms = skip_inactive hub team cycle ids (
    if is_active_temple_client hub id
    then ms
    else update_where (λ m. is_member team id m && not (m.boss_completed_cycle_id == cycle))
        (set_completed cycle) ms)

unfoldable pub skip_inactive_boss_cycle_participants : Hub → ℕ → ℕ → List Member → List Member
unfolding skip_inactive rope_team_pending_cycle_session_ids
skip_inactive_boss_cycle_participants hub team cycle ms =
    skip_inactive hub team cycle (rope_team_pending_cycle_session_ids team cycle ms) ms

abbrev pub is_completed : ℕ → ℕ → Member → Bool
is_completed team cycle m = in_team team m && m.boss_completed_cycle_id == cycle

-- `total > 0 && completed == total`.
unfoldable pub all_completed : ℕ → ℕ → List Member → Bool
all_completed team cycle ms =
    let total = length (keep (in_team team) ms) in
    ltb 0 total && length (keep (is_completed team cycle) ms) == total

-- The barrier is passed: the team disbands, and its leader is told.
abbrev pub disband : ℕ → Taken → Team → World → World
disband user taken t w =
    let (hub, sent) =
      send_command t.leader_session_id (cycle_command "disband_boss_party" t.id t.boss_cycle_id)
        (taken t.leader_session_id) w.hub in
    record w {
      teams =
          update_where (in_cycle t.id t.boss_cycle_id "casting") (set_state "disbanding") w.teams;
      hub = notify_clients user hub;
    }

abbrev pub completed_at : ℕ → String → Taken → World → Option Team → World
completed_at user session taken w none = w
completed_at user session taken w (some t) =
    if not (has (is_uncompleted t.id session t.boss_cycle_id) w.members)
    then w
    else (let marked =
          update_where (is_member t.id session) (set_completed t.boss_cycle_id) w.members in
        let ms = skip_inactive_boss_cycle_participants w.hub t.id t.boss_cycle_id marked in
        if all_completed t.id t.boss_cycle_id ms
        then disband user taken t (record w { members = ms })
        else record w { members = ms; hub = notify_clients user w.hub })

abbrev pub is_casting : Team → Bool
is_casting t = t.boss_cycle_state == "casting"

unfoldable pub mark_boss_buff_completed :
    Bool → ℕ → String → RopePartyProgressPayload → Taken → World → World
unfolding skip_inactive_boss_cycle_participants all_completed send_command notify_clients
mark_boss_buff_completed commits user session p taken w =
    if commits
    then completed_at user session taken w
        (find (λ t. is_progress_of user p t && is_casting t) w.teams)
    else w

abbrev pub resume_team : String → ℕ → World → Option Team → World
resume_team session taken w none = w
resume_team session taken w (some t) = record w {
  hub = (send_command session (cycle_command "cast_boss_buffs" t.id t.boss_cycle_id) taken w.hub).0;
}

-- The session's row is pending in the running cycle of the user's team.
unfoldable pub resume_pending_boss_buff_cycle : Bool → ℕ → String → ℕ → World → World
unfolding send_command
resume_pending_boss_buff_cycle selects user session taken w =
    if selects
    then resume_team session taken w (
        find
          (λ t.
            t.user_id == user
            && is_casting t
            && has (is_uncompleted t.id session t.boss_cycle_id) w.members)
          w.teams)
    else w

abbrev pub send_to_leader : Team → ClientCommand → Taken → World → World
send_to_leader t c taken w =
    if is_active_temple_client w.hub t.leader_session_id
    then record w { hub = (send_command t.leader_session_id c (taken t.leader_session_id) w.hub).0 }
    else w

abbrev pub reconcile_casting : ℕ → Taken → Team → World → World
reconcile_casting user taken t w =
    let ms = skip_inactive_boss_cycle_participants w.hub t.id t.boss_cycle_id w.members in
    let pending = rope_team_pending_cycle_session_ids t.id t.boss_cycle_id ms in
    if is_empty pending then disband user taken t (record w { members = ms }) else record w {
      members = ms;
      hub =
          notify_clients user
            (send_all pending (cycle_command "cast_boss_buffs" t.id t.boss_cycle_id) taken w.hub);
    }

abbrev pub reconcile_team : Bool → ℕ → Taken → World → Option Team → World
reconcile_team commits user taken w none = w
reconcile_team commits user taken w (some t) =
    if t.boss_cycle_state == "inviting"
    then send_to_leader t (invite_command t.id t.boss_cycle_id t.boss_role_name) taken w
    else if t.boss_cycle_state == "casting"
    then (if commits then reconcile_casting user taken t w else w)
    else if t.boss_cycle_state == "disbanding"
    then send_to_leader t (cycle_command "disband_boss_party" t.id t.boss_cycle_id) taken w
    else w

unfoldable pub reconcile_boss_buff_cycle : Bool → Bool → ℕ → Taken → World → World
unfolding skip_inactive_boss_cycle_participants rope_team_pending_cycle_session_ids send_all
    send_command is_active_temple_client notify_clients
reconcile_boss_buff_cycle selects commits user taken w =
    if selects
    then reconcile_team commits user taken w
        (find (λ t. t.user_id == user && not (t.boss_cycle_state == "idle")) w.teams)
    else w

abbrev pub is_kicked : ℕ → String → RopePartyProgressPayload → Team → Bool
is_kicked user session p t =
    is_progress_of user p t && t.leader_session_id == session && t.boss_cycle_state == "kicking"

unfoldable pub mark_boss_kicked : Bool → ℕ → String → RopePartyProgressPayload → World → World
unfolding notify_clients
mark_boss_kicked commits user session p w =
    if commits && has (is_kicked user session p) w.teams
    then record w {
      teams = update_where (is_kicked user session p) (set_state "idle") w.teams;
      hub = notify_clients user w.hub;
    }
    else w
