-- ===== src/Server/Teams/Formed.antt =====
-- The team that a saved request forms, and what a request that fails leaves.
use monitor_backend.Base.{
  ℕ, ◌≡◌, refl, sym, ap, subst, ◌∙◌, String, Bool, false, not, ◌&&◌, Option, none, some, List, [],
  ◌∷◌, ◌++◌, ◌==◌, string_eq, nat_eq, nat_beq_iff, if◌then◌else◌, keep, map, arith,
}
use monitor_backend.Base.Results.{ok, passed, succeeded, ok_inj}
use monitor_backend.Hub.Watching.{client_status}
use monitor_backend.BossCycle.{Team, Member, find, in_team}
use monitor_backend.Server.{Store}
use monitor_backend.Server.Rows.{find-passes, find-update, find-append}
use monitor_backend.Server.Teams.{team_of}
use monitor_backend.Server.Teams.Choosing.{Statements, check_request, read_roles}
use monitor_backend.Server.Teams.Saving.{
  Change, create_team, led_by, is_team, plan_change, new_member, new_team, not_in_team,
  replace_members, write_change, commit_team,
}
use monitor_backend.Server.Teams.Requests.{Chosen, check_request-Chosen}

-- The user's team has this leader and these members, and none of them has joined in the game yet.
abbrev pub Formed : ℕ → String → List String → Bool → Store → Type 0
Formed user leader ids changing st =
    (t : Team) × (team_of user st ≡ some t)
    × (t.leader_session_id ≡ leader)
    × (t.created_in_game ≡ false)
    × (t.boss_cycle_state ≡ (if changing then "changing_leader" else "idle"))
    × (keep (in_team t.id) st.world.members ≡ map (new_member t.id) ids)

keep-append {ℓ} :
    {A : Type ℓ} (p : A → Bool) (xs ys : List A) → keep p (xs ++ ys) ≡ keep p xs ++ keep p ys
keep-append p [] ys = refl
keep-append p (x ∷ xs) ys = ground (arith, keep-append p xs ys)

others : (team : ℕ) (ms : List Member) → keep (in_team team) (keep (not_in_team team) ms) ≡ []
others team [] = refl
others team (m ∷ ms) = ground (arith, others team ms)

new_ones :
    (team : ℕ) (ids : List String)
    → keep (in_team team) (map (new_member team) ids) ≡ map (new_member team) ids
new_ones team [] = refl
new_ones team (id ∷ ids) = ground (arith, new_ones team ids, nat_beq_iff team team)

members-replace :
    (team : ℕ) (ids : List String) (ms : List Member)
    → keep (in_team team) (replace_members team ids ms) ≡ map (new_member team) ids
unfolding replace_members
members-replace team ids ms =
    keep-append (in_team team) (keep (not_in_team team) ms) (map (new_member team) ids)
    ∙ (ap (λ xs. xs ++ keep (in_team team) (map (new_member team) ids)) (others team ms)
        ∙ new_ones team ids)

-- The team that a planned change makes.
abbrev Planned : ℕ → String → Change → Type 0
Planned user leader c =
    (t : Team) × (find (λ (x : Team). x.user_id == user) c.teams ≡ some t)
    × (t.id ≡ c.team_id)
    × (t.user_id ≡ user)
    × (t.leader_session_id ≡ leader)
    × (t.created_in_game ≡ false)
    × (t.boss_cycle_state ≡ (if c.leader_changing then "changing_leader" else "idle"))

planned :
    (db : Statements) (fresh user : ℕ) (leader : String) (st : Store) (o : Option Team) (c : Change)
    → team_of user st ≡ o
    → plan_change db fresh user leader st o ≡ ok c
    → Planned user leader c
planned db fresh user leader st none c f e =
    subst (Planned user leader) (ok_inj (create_team fresh user leader st.world.teams) c e) (
      new_team fresh user leader,
      find-append (λ (x : Team). x.user_id == user) st.world.teams (new_team fresh user leader) f
          (ground (arith, nat_beq_iff user user)),
      refl,
      refl,
      refl,
      refl,
      refl,
    )
planned db fresh user leader st (some t) c f e =
    let changing = not (t.leader_session_id == "") && not (t.leader_session_id == leader) in
    let (a, next) = passed (not db.loads_team) "internal_error" _ c e in
    let (b, rest) =
      passed (not (t.boss_cycle_state == "idle")) "team_transition_in_progress" _ c next in
    let (d, last) =
      passed (changing && not (client_status t.leader_session_id st.world.hub).0)
        "previous_leader_offline" _ c rest in
    subst (Planned user leader) (ok_inj _ c last) (
      led_by leader changing t,
      find-update (λ (x : Team). x.user_id == user) (is_team t.id) (led_by leader changing)
          st.world.teams t (λ x. refl) f (ground (arith, nat_beq_iff t.id t.id)),
      refl,
      (nat_beq_iff t.user_id user).0
          (find-passes (λ (x : Team). x.user_id == user) st.world.teams t f),
      refl,
      refl,
      refl,
    )

-- What the transaction leaves when it commits.
abbrev pub Committed : ℕ → String → List String → Store × (Change × List (String × String)) → Type 0
Committed user leader ids (after, (c, roles)) =
    Chosen leader ids
    × (t : Team) × (team_of user after ≡ some t)
    × (t.id ≡ c.team_id)
    × (t.user_id ≡ user)
    × Formed user leader ids c.leader_changing after

written :
    (user : ℕ) (leader : String) (ids : List String) (st : Store) (c : Change)
    → (roles : List (String × String)) → Chosen leader ids
    → Planned user leader c
    → Committed user leader ids (write_change c ids st, (c, roles))
written user leader ids st c roles h (t, f, i, o, l, g, s) =
    let rows =
      subst
        (λ team.
          keep (in_team team) (replace_members c.team_id ids st.world.members)
          ≡ map (new_member team) ids)
        (sym i) (members-replace c.team_id ids st.world.members) in
    (h, t, f, i, o, (t, f, l, g, s, rows))

pub commit_team-Committed :
    (db : Statements) (fresh user : ℕ) (leader : String) (ids : List String) (st : Store)
    → (done : Store × (Change × List (String × String)))
    → commit_team db fresh user leader ids st ≡ ok done
    → Committed user leader ids done
unfolding commit_team
commit_team-Committed db fresh user leader ids st done e =
    let (u, checked, e1) = succeeded (check_request leader ids) _ done e in
    let (b, e2) = passed (not db.begins) "internal_error" _ done e1 in
    let (names, read, e3) = succeeded (read_roles db user st [] ids) _ done e2 in
    let (s, e4) = passed (not db.selects_team) "internal_error" _ done e3 in
    let (c, plan, e5) =
      succeeded (plan_change db fresh user leader st (team_of user st)) _ done e4 in
    let (w, e6) = passed (not db.writes) "internal_error" _ done e5 in
    subst (Committed user leader ids) (ok_inj (write_change c ids st, (c, names)) done e6) (
      written user leader ids st c names (check_request-Chosen leader ids checked)
        (planned db fresh user leader st (team_of user st) c refl plan))
