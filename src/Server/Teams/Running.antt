-- ===== src/Server/Teams/Running.antt =====
-- A save of the boss while a cycle runs.
use monitor_backend.Base.{
  ℕ, ◌<◌, ◌≡◌, ◌≢◌, refl, sym, ap, subst, ◌∙◌, ◌⊎◌, inl, inr, String, Bool, true, false, not, ◌&&◌,
  Option, none, some, List, ◌==◌, string_eq, nat_eq, eq_iff, if◌then◌else◌, arith, Bool-cases,
}
use monitor_backend.Base.Results.{Result, ok, err, passed, succeeded, ok_inj}
use monitor_backend.BossCycle.{
  Team, World, Taken, find, has, update_where, team_of_member, is_member, is_active_temple_client,
}
use monitor_backend.BossCycle.Starting.{
  Database, Plan, found_team, plan_cycle, run_plan, start_boss_buff_cycle,
}
use monitor_backend.Server.{Store}
use monitor_backend.Server.Rows.{
  amount, some_inj, find-passes, find-amount, has-amount, update-none,
}
use monitor_backend.Server.Attempts.{true-ne-false}
use monitor_backend.Server.Teams.{
  TeamItem, rope_team, show_members, shown_team, team_of, with_members,
}
use monitor_backend.Server.Teams.Configuring.{notify_user, with_teams}
use monitor_backend.Server.Teams.Boss.{
  BossStatements, BossSaved, is_idle_of, set_boss, answer_boss, save_name, try_start, save_boss,
}

abbrev idle : Team → Bool
idle t = t.boss_cycle_state == "idle"

unidle :
    (user : ℕ) (p : Team → Bool) (ts : List Team) (x : Team)
    → has (is_idle_of user) ts ≡ false
    → find p ts ≡ some x
    → (x.user_id == user) ≡ true
    → idle x ≡ false
unidle user p ts x none_idle e mine = elim (Bool-cases (idle x)) [
  | inr n ↦ n
  | inl t ↦
      let passes : is_idle_of user x ≡ true = rw mine t in
      let some_idle : 0 < amount (is_idle_of user) ts =
        find-amount p (is_idle_of user) ts x e passes in
      let no_idle = has-amount (is_idle_of user) ts none_idle in ground arith
]

found_team-some : (o : Option Team) (t : Team) → found_team o ≡ ok t → o ≡ some t
found_team-some none t e = cc
found_team-some (some x) t e = ap some (ok_inj x t e)

selected :
    (b : Bool) (o : Option Team) (t : Team) → found_team (if b then o else none) ≡ ok t → o ≡ some t
selected true o t e = found_team-some o t e
selected false o t e = cc

refused :
    (db : Database) (user : ℕ) (session : String) (name : Option String) (w : World) (p : Plan)
    → has (is_idle_of user) w.teams ≡ false
    → plan_cycle db user session name w ≢ ok p
unfolding plan_cycle
refused db user session name w p none_idle e =
    let (a1, e1) = passed (not db.begins) "storage_error" _ p e in
    let (t, f, e2) =
      succeeded (found_team (if db.selects_team then team_of_member user session w else none)) _ p
        e1 in
    let (is_idle, e3) = passed (not (idle t)) "already_active" _ p e2 in
    let found = selected db.selects_team (team_of_member user session w) t f in
    let passes = find-passes _ w.teams t found in
    let stays =
      unidle user (λ x. x.user_id == user && has (is_member x.id session) w.members) w.teams t
        none_idle found (ground arith) in
    absurd (true-ne-false (ground arith))

run-unchanged :
    (resets : Bool) (user taken : ℕ) (w : World) (r : Result Plan)
    → ((p : Plan) → r ≢ ok p)
    → ((run_plan resets user taken w r).0 ≡ w) × ((run_plan resets user taken w r).1.0 ≡ false)
run-unchanged resets user taken w (err why) h = (refl, refl)
run-unchanged resets user taken w (ok p) h = absurd (h p refl)

started-unchanged :
    (db : BossStatements) (user : ℕ) (leader : String) (online : Bool) (role : String)
    (taken : Taken)
    → (w : World) → has (is_idle_of user) w.teams ≡ false
    → ((try_start db user leader online role taken w).0 ≡ w)
      × ((try_start db user leader online role taken w).1.0 ≡ false)
unfolding start_boss_buff_cycle
started-unchanged db user leader false role taken w h = (refl, refl)
started-unchanged db user leader true role taken w h =
    run-unchanged db.cycle.resets user (taken leader) w
      (plan_cycle db.cycle user leader (some role) w)
      (λ p. refused db.cycle user leader (some role) w p h)

-- What the answer says of the boss.
abbrev pub Unstarted : String → Result BossSaved → Type 0
Unstarted role (err why) = Unit
Unstarted role (ok b) =
    (b.cycle_started ≡ false)
    × (((b.team ≡ none) × (b.already_active ≡ false))
        ⊎ ((t : TeamItem) × (b.team ≡ some t)
            × (t.boss_role_name ≡ role)
            × (b.already_active ≡ true)))

-- A loaded team is a team of the account.
shown :
    (st : Store) (o : Option Team) (item : TeamItem)
    → shown_team st o ≡ ok (some item)
    → (t : Team) × (o ≡ some t) × (item.boss_cycle_state ≡ t.boss_cycle_state)
shown st none item e = cc
shown st (some t) item e =
    let (items, m, f) = succeeded (show_members st.world.hub t _) _ (some item) e in
    (
      t,
      refl,
      ap (λ (x : TeamItem). x.boss_cycle_state)
          (sym (some_inj (with_members t items) item (ok_inj _ _ f))),
    )

loaded_team :
    (selects : Bool) (user : ℕ) (st : Store) (item : TeamItem)
    → rope_team selects user st ≡ ok (some item)
    → (t : Team) × (team_of user st ≡ some t) × (item.boss_cycle_state ≡ t.boss_cycle_state)
unfolding rope_team
loaded_team selects user st item e =
    let (b, f) = passed (not selects) "internal_error" _ (some item) e in
    shown st (team_of user st) item f

answer-Unstarted :
    (online : Bool) (role reason : String) (r : Result (Option TeamItem))
    → ((item : TeamItem) → r ≡ ok (some item) → (item.boss_cycle_state == "idle") ≡ false)
    → Unstarted role (answer_boss online role (false, reason) r)
answer-Unstarted online role reason (err why) h = tt
answer-Unstarted online role reason (ok none) h = (refl, inl (refl, refl))
answer-Unstarted online role reason (ok (some item)) h =
    let busy = h item refl in
    elim (Bool-cases (item.boss_role_name == role)) [
      | inl t ↦ rw (busy, t) (refl, inr (item, refl, (eq_iff item.boss_role_name role).0 t, refl))
      | inr n ↦ rw (busy, n) tt
    ]

abbrev pub Keeps : String → Store → Store × Result BossSaved → Type 0
Keeps role st (after, told) =
    (after.world.teams ≡ st.world.teams)
    × (after.world.members ≡ st.world.members)
    × Unstarted role told

unsaved-Keeps :
    (saves : Bool) (role : String) (st after : Store) (told : Result BossSaved)
    → Keeps role st (after, told)
    → Keeps role st (if not saves then (st, err "internal_error") else (after, told))
unsaved-Keeps true role st after told k = k
unsaved-Keeps false role st after told k = (refl, refl, tt)

save_name-Keeps :
    (db : BossStatements) (user : ℕ) (online : Bool) (role reason : String) (st : Store)
    → has (is_idle_of user) st.world.teams ≡ false
    → Keeps role st (save_name db user online role (false, reason) st)
save_name-Keeps db user online role reason st none_idle =
    let teams = update_where (is_idle_of user) (set_boss role) st.world.teams in
    let after = notify_user user st.world.hub (with_teams teams st) in
    let same : teams ≡ st.world.teams =
      update-none (is_idle_of user) (set_boss role) st.world.teams
        (has-amount (is_idle_of user) st.world.teams none_idle) in
    let busy : (item : TeamItem)
        → rope_team db.reloads user after ≡ ok (some item)
        → (item.boss_cycle_state == "idle") ≡ false =
      λ item e.
        let (t, f, state) = loaded_team db.reloads user after item e in
        let mine = find-passes (λ (x : Team). x.user_id == user) teams t f in
        ap (λ x. x == "idle") state
        ∙ unidle user (λ x. x.user_id == user) teams t (ap (has (is_idle_of user)) same ∙ none_idle)
            f mine in
    unsaved-Keeps db.saves role st after
      (answer_boss online role (false, reason) (rope_team db.reloads user after))
      (same, refl, answer-Unstarted online role reason (rope_team db.reloads user after) busy)

after_start :
    (db : BossStatements) (user : ℕ) (online : Bool) (role : String) (st : Store)
    → has (is_idle_of user) st.world.teams ≡ false
    → (w : World) (start : Bool × String) → w ≡ st.world
    → start.0 ≡ false
    → Keeps role st (save_name db user online role start (record st { world = w }))
after_start db user online role st none_idle w (true, reason) e stopped = absurd (cc stopped)
after_start db user online role st none_idle w (false, reason) e stopped =
    subst
      (λ x. Keeps role st (save_name db user online role (false, reason) (record st { world = x })))
      (sym e) (save_name-Keeps db user online role reason st none_idle)

-- Once a cycle of the account's team runs, a save of the boss changes no row of the teams and their
-- members, whatever the request saw when it was checked. It does not answer that a cycle started, and it
-- answers that one is already active only if the team's boss has the name of the request.
pub save_boss-Keeps :
    (db : BossStatements) (user : ℕ) (leader role : String) (taken : Taken) (st : Store)
    → has (λ (t : Team). t.user_id == user && t.boss_cycle_state == "idle") st.world.teams ≡ false
    → Keeps role st (save_boss db user leader role taken st)
unfolding save_boss
save_boss-Keeps db user leader role taken st none_idle =
    let online = is_active_temple_client st.world.hub leader in
    let tried = try_start db user leader online role taken st.world in
    let (w, b) = started-unchanged db user leader online role taken st.world none_idle in
    after_start db user online role st none_idle tried.0 tried.1 w b
