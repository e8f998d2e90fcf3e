-- ===== src/Server/Teams/Answers.antt =====
-- What `handleSaveRopeTeam` leaves, by how it answers.
use monitor_backend.Base.{
  ℕ, ◌≡◌, refl, sym, ap, subst, ◌∙◌, ◌⊎◌, inl, inr, String, Bool, true, false, not, Option, none,
  some, List, [], ◌∷◌, ◌==◌, string_eq, nat_eq, eq_iff, nat_beq_iff, if◌then◌else◌, arith,
  Option-cases,
}
use monitor_backend.Base.Results.{Result, ok, err, ◌>>=◌}
use monitor_backend.Hub.{Hub}
use monitor_backend.Hub.Commands.{send_command}
use monitor_backend.BossCycle.{Team, Member, Taken}
use monitor_backend.Server.{Session, Store}
use monitor_backend.Server.Rows.{find-update, some_inj}
use monitor_backend.Server.Teams.{TeamItem, rope_team, show_members, shown_team, team_of}
use monitor_backend.Server.Teams.Choosing.{Statements}
use monitor_backend.Server.Teams.Saving.{Change, commit_team}
use monitor_backend.Server.Teams.Configuring.{
  Saved, answer, change_leader, configure_team, configure_all, invited_roles, after_commit,
  notify_user, reset_change, is_changing, set_idle, team_command, handle_save_rope_team,
}
use monitor_backend.Server.Teams.Requests.{Chosen}
use monitor_backend.Server.Teams.Formed.{Formed, Committed, commit_team-Committed}

abbrev pub Ends : Statements → ℕ → String → List String → Store → Store × Result Saved → Type 0
Ends db user leader ids st (after, ok saved) =
    Chosen leader ids × Formed user leader ids saved.leader_changing after
Ends db user leader ids st (after, err why) =
    (after ≡ st)
    ⊎ (Chosen leader ids
        × (((why ≡ "previous_leader_unavailable") × Formed user leader ids (not db.resets) after)
            ⊎ ((why ≡ "team_clients_unavailable") × Formed user leader ids false after)
            ⊎ ((why ≡ "internal_error")
                × ((changing : Bool) × Formed user leader ids changing after))))

-- Every error of a result is an internal one.
abbrev Internal {ℓ} : {A : Type ℓ} → Result A → Type 0
Internal (err why) = why ≡ "internal_error"
Internal (ok x) = Unit

then-Internal {ℓ κ} :
    {A : Type ℓ} {B : Type κ} (r : Result A) (next : A → Result B)
    → Internal r
    → ((x : A) → Internal (next x))
    → Internal (r >>= next)
then-Internal (err why) next i h = i
then-Internal (ok x) next i h = h x

show_members-Internal :
    (hub : Hub) (t : Team) (rows : List (Member × Session)) → Internal (show_members hub t rows)
unfolding show_members
show_members-Internal hub t [] = tt
show_members-Internal hub t ((m, s) ∷ rows) = elim (Option-cases s.client_id) [
  | inl e ↦ rw e refl
  | inr (client, e) ↦
      rw e
        (then-Internal (show_members hub t rows) _ (show_members-Internal hub t rows) (λ items. tt))
]

shown_team-Internal : (st : Store) (o : Option Team) → Internal (shown_team st o)
shown_team-Internal st none = tt
shown_team-Internal st (some t) =
    then-Internal _ _ (show_members-Internal st.world.hub t _) (λ items. tt)

rope_team-Internal : (selects : Bool) (user : ℕ) (st : Store) → Internal (rope_team selects user st)
unfolding rope_team
rope_team-Internal false user st = refl
rope_team-Internal true user st = shown_team-Internal st (team_of user st)

answer-Ends :
    (db : Statements) (user : ℕ) (leader : String) (ids : List String) (st saved : Store)
    (c : Change)
    → Chosen leader ids
    → Formed user leader ids c.leader_changing saved
    → Ends db user leader ids st (answer db.reloads user c saved)
answer-Ends db user leader ids st saved c h f =
    go (rope_team db.reloads user saved) (rope_team-Internal db.reloads user saved)
  where
    go :
        (r : Result (Option TeamItem))
        → Internal r
        → Ends db user leader ids st (
          saved,
          r >>= λ (team : Option TeamItem). ok (record {
            team = team;
            first_creation = c.first_creation;
            leader_changing = c.leader_changing;
          }),
        )
    go (ok team) i = (h, f)
    go (err why) i = inr (h, inr (inr (i, (c.leader_changing, f))))

reset-Formed :
    (user : ℕ) (leader : String) (ids : List String) (st : Store) (hub : Hub) (c : Change)
    → (t : Team) → team_of user st ≡ some t
    → t.id ≡ c.team_id
    → t.user_id ≡ user
    → Formed user leader ids true st
    → Formed user leader ids false (notify_user user hub (reset_change true user c st))
reset-Formed user leader ids st hub c t f i o (x, g, l, m, s, rows) =
    let same : t ≡ x = some_inj t x (sym f ∙ g) in
    let i' : x.id ≡ c.team_id = ap (λ (y : Team). y.id) (sym same) ∙ i in
    let o' : x.user_id ≡ user = ap (λ (y : Team). y.user_id) (sym same) ∙ o in
    (
      set_idle x,
      find-update (λ (y : Team). y.user_id == user) (is_changing c.team_id user) set_idle
          st.world.teams x (λ y. refl) g
          (ground (
            arith,
            nat_beq_iff x.id c.team_id,
            nat_beq_iff x.user_id user,
            eq_iff x.boss_cycle_state "changing_leader",
          )),
      l,
      m,
      refl,
      rows,
    )

change_leader-Ends :
    (db : Statements) (user : ℕ) (leader : String) (ids : List String) (taken : Taken)
    → (st saved : Store) (c : Change) → Chosen leader ids
    → c.leader_changing ≡ true
    → (t : Team) → team_of user saved ≡ some t
    → t.id ≡ c.team_id
    → t.user_id ≡ user
    → Formed user leader ids c.leader_changing saved
    → Ends db user leader ids st (change_leader db user taken c saved)
change_leader-Ends db user leader ids taken st saved c h changing t f i o formed = go (
    send_command c.previous_leader (team_command "disband_rope_party" c.team_id)
      (taken c.previous_leader) saved.world.hub)
  where
    one : Formed user leader ids true saved
    one = subst (λ b. Formed user leader ids b saved) changing formed

    reset :
        (hub : Hub) (resets : Bool)
        → Formed user leader ids
            (not resets)
            (notify_user user hub (reset_change resets user c saved))
    reset hub true = reset-Formed user leader ids saved hub c t f i o one
    reset hub false = one

    go :
        (r : Hub × Bool)
        → Ends db user leader ids st (
            if r.1 then answer db.reloads user c (notify_user user r.0 saved) else (
              notify_user user r.0 (reset_change db.resets user c saved),
              err "previous_leader_unavailable",
            ))
    go (hub, true) = answer-Ends db user leader ids st (notify_user user hub saved) c h formed
    go (hub, false) = inr (h, inl (refl, reset hub db.resets))

configure_team-Ends :
    (db : Statements) (user : ℕ) (leader : String) (ids : List String) (taken : Taken)
    → (roles : List (String × String)) (st saved : Store) (c : Change) → Chosen leader ids
    → c.leader_changing ≡ false
    → Formed user leader ids c.leader_changing saved
    → Ends db user leader ids st (configure_team db user leader ids taken roles c saved)
configure_team-Ends db user leader ids taken roles st saved c h stays formed = go (
    configure_all c.team_id leader roles (invited_roles leader roles ids) taken ids saved.world.hub)
  where
    go :
        (r : Hub × Bool)
        → Ends db user leader ids st (
            if r.1
            then answer db.reloads user c (notify_user user r.0 saved)
            else (notify_user user r.0 saved, err "team_clients_unavailable"))
    go (hub, true) = answer-Ends db user leader ids st (notify_user user hub saved) c h formed
    go (hub, false) =
        inr (h, inr (inl (refl, subst (λ b. Formed user leader ids b saved) stays formed)))

after_commit-Ends :
    (db : Statements) (user : ℕ) (leader : String) (ids : List String) (taken : Taken) (st : Store)
    → (saved : Store) (c : Change) (roles : List (String × String))
    → Committed user leader ids (saved, (c, roles))
    → Ends db user leader ids st (after_commit db user leader ids taken st (ok (saved, (c, roles))))
after_commit-Ends db user leader ids taken st saved c roles (h, t, f, i, o, formed) =
    go c.leader_changing refl
  where
    go :
        (b : Bool)
        → c.leader_changing ≡ b
        → Ends db user leader ids st (
            if b
            then change_leader db user taken c saved
            else configure_team db user leader ids taken roles c saved)
    go true e = change_leader-Ends db user leader ids taken st saved c h e t f i o formed
    go false e = configure_team-Ends db user leader ids taken roles st saved c h e formed

-- Saving a team either changes nothing and answers with an error, or the request has one to five
-- different sessions with the leader among them, and afterwards the account's team has that leader and
-- exactly those members, none joined, and is not created in the game. Its state is "changing_leader" or
-- "idle" as the answer says. If the old leader could not be told, it is "idle" unless the reset fails; if
-- a member could not be, it is "idle"; and the only other error then is that the answer is not loaded.
pub handle_save_rope_team-Ends :
    (db : Statements) (fresh user : ℕ) (leader : String) (ids : List String) (taken : Taken)
    → (st : Store)
    → Ends db user leader ids st (handle_save_rope_team db fresh user leader ids taken st)
unfolding handle_save_rope_team
handle_save_rope_team-Ends db fresh user leader ids taken st =
    go (commit_team db fresh user leader ids st) refl
  where
    go :
        (r : Result (Store × (Change × List (String × String))))
        → commit_team db fresh user leader ids st ≡ r
        → Ends db user leader ids st (after_commit db user leader ids taken st r)
    go (err why) e = inl refl
    go (ok (saved, (c, roles))) e =
        after_commit-Ends db user leader ids taken st saved c roles
          (commit_team-Committed db fresh user leader ids st (saved, (c, roles)) e)
