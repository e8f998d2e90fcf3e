-- ===== src/BossCycle/Tests.antt =====
-- A team of three, of whom the leader "a" and the member "b" run in the temple mode and "c" is away.
use monitor_backend.Base.{
  suc, ◌≡◌, refl, ◌⊎◌, String, true, not, ◌&&◌, none, some, [], ◌∷◌, ◌==◌, string_eq, nat_eq,
  lookup, map, arith, eq_iff,
}
use monitor_backend.Base.Int.{pos}
use monitor_backend.Protocol.{RopePartyProgressPayload}
use monitor_backend.Hub.{Hub, Room, new_hub, new_room}
use monitor_backend.Hub.Watching.{client_status}
use monitor_backend.BossCycle.{
  Team, Member, World, Taken, find, team_of_member, rope_team_member_session_ids,
  rope_team_pending_cycle_session_ids, active_temple_client_session_ids, contains_session_id,
  is_active_temple_client,
}
use monitor_backend.BossCycle.Starting.{Database, start_boss_buff_cycle}
use monitor_backend.BossCycle.Handlers.{
  mark_boss_buff_completed, reconcile_boss_buff_cycle, mark_boss_kicked,
  skip_inactive_boss_cycle_participants, is_progress_of, is_casting,
}
use monitor_backend.BossCycle.Barrier.{
  Disbands, mark_boss_buff_completed-barrier, reconcile-barrier,
}
use monitor_backend.BossCycle.Skips.{skip_inactive_lem}
use monitor_backend.BossCycle.Frozen.{start_boss_buff_cycle-freezes}
use monitor_backend.BossCycle.Kicks.{here, next, starts, mark_boss_kicked-same}

abbrev temple_room : Room
temple_room = record new_room {
  publisher = "c1";
  user_id = 7;
  controls = some [];
  client_state = record { mode = "temple"; running = true };
  connected = true;
}

abbrev hub_abc : Hub
hub_abc = record new_hub { rooms = ("a", temple_room) ∷ ("b", temple_room) ∷ [] }

abbrev team : Team
team = record {
  id = 1;
  user_id = 7;
  leader_session_id = "a";
  created_in_game = true;
  boss_role_name = "Boss";
  boss_cycle_id = 4;
  boss_cycle_state = "idle";
}

abbrev row : String → Member
row s = record {
  team_id = 1;
  session_id = s;
  invited = true;
  boss_completed_cycle_id = 4;
  joined = true;
  joined_at = some 1;
}

abbrev world : World
world = record { teams = team ∷ []; members = row "a" ∷ row "b" ∷ row "c" ∷ []; hub = hub_abc }

abbrev healthy : Database
healthy = record {
  begins = true;
  selects_team = true;
  lists_members = true;
  reads_joined = λ s. true;
  writes = true;
  resets = true;
}

abbrev started : World
started = (start_boss_buff_cycle healthy 7 "b" none 0 world).0

started_result : start_boss_buff_cycle healthy 7 "b" none 0 world ≡ (started, (true, "started"))
unfolding start_boss_buff_cycle client_status lookup is_active_temple_client
started_result = refl

pending_after_start : rope_team_pending_cycle_session_ids 1 5 started.members ≡ "a" ∷ "b" ∷ []
unfolding start_boss_buff_cycle client_status lookup is_active_temple_client
    rope_team_pending_cycle_session_ids
pending_after_start = refl

start_boss_buff_cycle-freezes_example :
    (t : Team) × (team_of_member 7 "b" world ≡ some t)
    × (t.boss_cycle_state ≡ "idle")
    × (t.created_in_game ≡ true)
    × (contains_session_id
          (rope_team_pending_cycle_session_ids t.id (suc t.boss_cycle_id) started.members)
          t.leader_session_id
        ≡ true)
    × (rope_team_pending_cycle_session_ids t.id (suc t.boss_cycle_id) started.members
        ≡ active_temple_client_session_ids world.hub
            (rope_team_member_session_ids t.id world.members))
start_boss_buff_cycle-freezes_example =
    start_boss_buff_cycle-freezes healthy 7 "b" none 0 world started "started" started_result

abbrev casting_world : World
casting_world = record {
  teams = record team { boss_cycle_id = 5; boss_cycle_state = "casting" } ∷ [];
  members = row "a" ∷ record (row "b") { boss_completed_cycle_id = 5 } ∷ row "c" ∷ [];
  hub = hub_abc;
}

abbrev receipt : RopePartyProgressPayload
receipt = record {
  team_id = pos 1;
  cycle_id = pos 5;
  event = "buff_completed";
  role_name = "";
  receipt_id = "receipt-1";
}

abbrev idle_queue : Taken
idle_queue = λ s. 0

-- The leader is the last online member to finish; "c" is skipped, and the team disbands.
last_receipt :
    map
      (λ (t : Team). t.boss_cycle_state)
      (mark_boss_buff_completed true 7 "a" receipt idle_queue casting_world).teams
    ≡ "disbanding" ∷ []
unfolding mark_boss_buff_completed client_status lookup is_active_temple_client
last_receipt = refl

mark_boss_buff_completed-barrier_example :
    let w' = mark_boss_buff_completed true 7 "a" receipt idle_queue casting_world in
    (w'.teams ≡ casting_world.teams)
    ⊎ ((t : Team) × (find (λ t. is_progress_of 7 receipt t && is_casting t) casting_world.teams
          ≡ some t)
        × Disbands t casting_world w')
mark_boss_buff_completed-barrier_example =
    mark_boss_buff_completed-barrier true 7 "a" receipt idle_queue casting_world

reconcile-barrier_example :
    let w' = reconcile_boss_buff_cycle true true 7 idle_queue casting_world in
    (w'.teams ≡ casting_world.teams)
    ⊎ ((t : Team) × (find
            (λ t. t.user_id == 7 && not (t.boss_cycle_state == "idle"))
            casting_world.teams
          ≡ some t)
        × (t.boss_cycle_state ≡ "casting")
        × Disbands t casting_world w')
reconcile-barrier_example = reconcile-barrier true true 7 idle_queue casting_world

skip_inactive_lem_example :
    rope_team_pending_cycle_session_ids 1 5
      (skip_inactive_boss_cycle_participants hub_abc 1 5 casting_world.members)
    ≡ active_temple_client_session_ids hub_abc
        (rope_team_pending_cycle_session_ids 1 5 casting_world.members)
skip_inactive_lem_example = skip_inactive_lem hub_abc 1 5 casting_world.members

mark_boss_kicked-same_example : mark_boss_kicked true 7 "a" receipt started ≡ started
mark_boss_kicked-same_example =
    mark_boss_kicked-same world started true 7 "a" receipt
      ((ground (arith, eq_iff "idle" "kicking")), tt) (next here (starts healthy 7 "b" none 0))
