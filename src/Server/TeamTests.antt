-- ===== src/Server/TeamTests.antt =====
-- The rope team of an account with two clients.
use monitor_backend.Base.{
  ℕ, ◌≡◌, ◌≢◌, refl, String, true, false, none, [], ◌∷◌, string_eq, nat_eq, eq_iff, arith, lookup,
  insert,
}
use monitor_backend.Base.Int.{pos}
use monitor_backend.Base.Results.{Result, ok, err}
use monitor_backend.Protocol.{TeamJoinedPayload, RopePartyProgressPayload}
use monitor_backend.BossCycle.{Team, Member, Taken, rope_team_member_session_ids}
use monitor_backend.BossCycle.Starting.{Database}
use monitor_backend.Server.{Store}
use monitor_backend.Server.Teams.{team_of}
use monitor_backend.Server.Teams.Choosing.{Statements}
use monitor_backend.Server.Teams.Configuring.{Saved, handle_save_rope_team}
use monitor_backend.Server.Teams.Answers.{Ends, handle_save_rope_team-Ends}
use monitor_backend.Server.Teams.Ending.{
  Deleting, tell_disbanded, delete_team, handle_delete_rope_team,
}
use monitor_backend.Server.Teams.Deleting.{OneTeam, handle_delete_rope_team_lem}
use monitor_backend.Server.Joins.{mark_team_joined}
use monitor_backend.Server.Receipts.{rows, rejoined_rows, mark_team_joined-once}
use monitor_backend.Server.Progress.{Reports, report_progress}
use monitor_backend.Server.Handover.{Ready, report_progress-Ready}
use monitor_backend.Server.Samples.{id_a, id_b, hub, user, store}
use monitor_backend.Server.Teams.Boss.{BossStatements, save_boss, handle_save_rope_team_boss}
use monitor_backend.Server.Teams.Running.{Keeps, save_boss-Keeps}

abbrev statements : Statements
statements = record {
  begins = true;
  reads_role = λ id. true;
  selects_team = true;
  loads_team = true;
  writes = true;
  resets = true;
  reloads = true;
}

abbrev nothing : Taken
nothing id = 0

abbrev saved : Store × Result Saved
saved = handle_save_rope_team statements 1 7 id_a (id_a ∷ id_b ∷ []) nothing store

is_saved : (elim saved.1 [ err why ↦ why | ok s ↦ "saved" ]) ≡ "saved"
unfolding handle_save_rope_team insert
is_saved = refl

handle_save_rope_team-Ends_example :
    Ends statements 7 id_b
      (id_a ∷ id_b ∷ [])
      saved.0
      (handle_save_rope_team statements 2 7 id_b (id_a ∷ id_b ∷ []) nothing saved.0)
handle_save_rope_team-Ends_example =
    handle_save_rope_team-Ends statements 2 7 id_b (id_a ∷ id_b ∷ []) nothing saved.0

-- The leader changes to "b".
leader_is_changing :
    (elim (handle_save_rope_team statements 2 7 id_b (id_a ∷ id_b ∷ []) nothing saved.0).1 [
      | err why ↦ false
      | ok s ↦ s.leader_changing
    ])
    ≡ true
unfolding handle_save_rope_team insert
leader_is_changing = refl

abbrev team : String → Team
team state = record {
  id = 1;
  user_id = 7;
  leader_session_id = id_b;
  created_in_game = false;
  boss_role_name = "";
  boss_cycle_id = 0;
  boss_cycle_state = state;
}

abbrev row : String → Member
row s = record {
  team_id = 1;
  session_id = s;
  invited = false;
  boss_completed_cycle_id = 0;
  joined = false;
  joined_at = none;
}

abbrev changing_store : Store
changing_store = record store {
  world = record {
    teams = team "changing_leader" ∷ [];
    members = row id_a ∷ row id_b ∷ [];
    hub = hub;
  };
}

abbrev join : TeamJoinedPayload
join = record { team_id = pos 1; role_name = "Ann"; receipt_id = "receipt-1" }

joined_receipts :
    (mark_team_joined true true 5 7 id_a join 0 changing_store).receipts ≡ ("receipt-1", id_a) ∷ []
unfolding mark_team_joined
joined_receipts = refl

-- A report without a receipt.
abbrev bare_join : TeamJoinedPayload
bare_join = record join { receipt_id = "" }

mark_team_joined-once_example :
    let once = mark_team_joined true true 5 7 id_a bare_join 0 changing_store in
    rows (mark_team_joined true false 6 7 id_a bare_join 0 once)
    ≡ rejoined_rows 6 7 id_a bare_join (rows once)
mark_team_joined-once_example =
    mark_team_joined-once true false 5 6 7 id_a bare_join 0 0 changing_store

abbrev boss : Database
boss = record {
  begins = true;
  selects_team = true;
  lists_members = true;
  reads_joined = λ s. true;
  writes = true;
  resets = true;
}

abbrev reports : Reports
reports = record {
  boss = boss;
  leader_takes = 0;
  commits = true;
  reads_state = true;
  writes = true;
  writes_members = true;
  selects_saved = true;
  resets_saved = true;
  now = 9;
}

abbrev left_party : RopePartyProgressPayload
left_party = record {
  team_id = pos 1;
  event = "team_disbanded";
  cycle_id = pos 0;
  role_name = "";
  receipt_id = "receipt-2";
}

new_leader-ne : ◌≢◌ {A = String} id_b id_a
new_leader-ne = ground (arith, eq_iff id_b id_a)

report_progress-Ready_example :
    Ready 7 (pos 1) id_b (report_progress reports 7 id_a left_party nothing changing_store)
report_progress-Ready_example =
    report_progress-Ready reports 7 id_a left_party nothing changing_store (team "changing_leader")
      refl refl refl new_leader-ne refl refl

abbrev deleting : Deleting
deleting = record { selects_team = true; lists_members = true; deletes = true }

abbrev deleted_store : Store
deleted_store =
    (tell_disbanded 7 nothing (team "changing_leader") (id_a ∷ id_b ∷ [])
      (delete_team 1 7 changing_store)).0

deletes : handle_delete_rope_team deleting 7 nothing changing_store ≡ ok (deleted_store, (1, true))
unfolding handle_delete_rope_team rope_team_member_session_ids lookup
deletes = refl

one_team : OneTeam changing_store
one_team user = ground arith

other_user-ne : ◌≢◌ {A = ℕ} 7 8
other_user-ne = ground arith

handle_delete_rope_team_lem_example :
    (team_of 7 deleted_store ≡ none)
    × (rope_team_member_session_ids 1 deleted_store.world.members ≡ [])
    × (team_of 8 deleted_store ≡ team_of 8 changing_store)
handle_delete_rope_team_lem_example =
    handle_delete_rope_team_lem deleting 7 8 nothing changing_store deleted_store 1 true one_team
      other_user-ne deletes

abbrev busy_store : Store
busy_store = record changing_store {
  world = record changing_store.world { teams = team "casting" ∷ [] };
}

abbrev boss_statements : BossStatements
boss_statements = record { selects = true; saves = true; reloads = true; cycle = boss }

save_boss-Keeps_example :
    Keeps "Boss" busy_store (save_boss boss_statements 7 id_a "Boss" nothing busy_store)
save_boss-Keeps_example = save_boss-Keeps boss_statements 7 id_a "Boss" nothing busy_store refl

-- The request itself is refused: the cycle has another boss.
busy_refused :
    (handle_save_rope_team_boss boss_statements 7 " Boss" nothing busy_store).1
    ≡ err "boss_cycle_active"
unfolding handle_save_rope_team_boss
busy_refused = refl
