-- ===== src/Server/Teams/Deleting.antt =====
-- What is left of a team that is deleted.
use monitor_backend.Base.{
  ℕ, ◌≤◌, ◌≡◌, ◌≢◌, refl, ap, subst, ◌∙◌, inl, inr, String, Bool, not, Option, none, some, List, [],
  ◌∷◌, ◌==◌, string_eq, nat_eq, nat_beq_iff, keep, arith, Bool-cases,
}
use monitor_backend.Base.Results.{ok, passed, succeeded, ok_inj}
use monitor_backend.BossCycle.{
  Team, Member, Taken, find, in_team, sessions, rope_team_member_session_ids,
}
use monitor_backend.Server.{Store}
use monitor_backend.Server.Rows.{amount, some_inj}
use monitor_backend.Server.Teams.{team_of}
use monitor_backend.Server.Teams.Saving.{not_in_team}
use monitor_backend.Server.Teams.Ending.{
  Deleting, found, is_not_team, delete_team, tell_disbanded, handle_delete_rope_team,
}

abbrev pub is_users : ℕ → Team → Bool
is_users user t = t.user_id == user

-- The unique key of `rope_teams`.
abbrev pub OneTeam : Store → Type 0
OneTeam st = (user : ℕ) → amount (is_users user) st.world.teams ≤ 1

amount-none :
    (user : ℕ) (ts : List Team) → amount (is_users user) ts ≡ 0 → find (is_users user) ts ≡ none
amount-none user [] e = refl
amount-none user (t ∷ ts) e = ground (arith, amount-none user ts)

keep-none :
    (id user : ℕ) (ts : List Team)
    → amount (is_users user) ts ≡ 0
    → find (is_users user) (keep (is_not_team id user) ts) ≡ none
keep-none id user [] e = refl
keep-none id user (t ∷ ts) e = ground (arith, keep-none id user ts)

gone :
    (user : ℕ) (ts : List Team) (t : Team)
    → find (is_users user) ts ≡ some t
    → amount (is_users user) ts ≤ 1
    → find (is_users user) (keep (is_not_team t.id user) ts) ≡ none
gone user [] t f k = cc
gone user (x ∷ xs) t f k = elim (Bool-cases (is_users user x)) [
  | inl c ↦
      let same : x ≡ t = some_inj x t ((rw c refl) ∙ f) in
      let i : x.id ≡ t.id = ap (λ (y : Team). y.id) same in
      ground (arith, keep-none t.id user xs, nat_beq_iff x.id t.id)
  | inr n ↦ let rest = gone user xs t ((rw n refl) ∙ f) in ground (arith, rest)
]

kept :
    (id user other : ℕ) (ts : List Team)
    → user ≢ other
    → find (is_users other) (keep (is_not_team id user) ts) ≡ find (is_users other) ts
kept id user other [] d = refl
kept id user other (t ∷ ts) d =
    ground (arith, kept id user other ts d, nat_beq_iff t.user_id user, nat_beq_iff t.user_id other)

no_rows : (team : ℕ) (ms : List Member) → keep (in_team team) (keep (not_in_team team) ms) ≡ []
no_rows team [] = refl
no_rows team (m ∷ ms) = ground (arith, no_rows team ms)

pub found_some {ℓ} :
    {A : Type ℓ} (why : String) (o : Option A) (x : A) → found why o ≡ ok x → o ≡ some x
found_some why none x e = cc
found_some why (some y) x e = ap some (ok_inj y x e)

-- The state of the tables once the rows of the team are deleted and the clients told.
deleted :
    (user other : ℕ) (st : Store) (t : Team) (taken : Taken)
    → OneTeam st
    → user ≢ other
    → team_of user st ≡ some t
    → (done : Store × (ℕ × Bool))
    → (
      (tell_disbanded user taken t
          (rope_team_member_session_ids t.id st.world.members)
          (delete_team t.id user st)).0,
      (
        t.id,
        (tell_disbanded user taken t
            (rope_team_member_session_ids t.id st.world.members)
            (delete_team t.id user st)).1,
      ),
    )
      ≡ done
    → (team_of user done.0 ≡ none)
      × (rope_team_member_session_ids done.1.0 done.0.world.members ≡ [])
      × (team_of other done.0 ≡ team_of other st)
unfolding rope_team_member_session_ids
deleted user other st t taken one d f done e =
    subst
      (λ (z : Store × (ℕ × Bool)).
        (team_of user z.0 ≡ none)
        × (rope_team_member_session_ids z.1.0 z.0.world.members ≡ [])
        × (team_of other z.0 ≡ team_of other st))
      e
      (
        gone user st.world.teams t f (one user),
        ap sessions (no_rows t.id st.world.members),
        kept t.id user other st.world.teams d,
      )

-- Where an account has at most one team, a request that deletes it leaves the account without a team and
-- no member row of the team it answers with, whether or not its leader could be told. The teams of the
-- other accounts stay.
pub handle_delete_rope_team_lem :
    (db : Deleting) (user other : ℕ) (taken : Taken) (st after : Store) (team : ℕ) (told : Bool)
    → OneTeam st
    → user ≢ other
    → handle_delete_rope_team db user taken st ≡ ok (after, (team, told))
    → (team_of user after ≡ none)
      × (rope_team_member_session_ids team after.world.members ≡ [])
      × (team_of other after ≡ team_of other st)
unfolding handle_delete_rope_team
handle_delete_rope_team_lem db user other taken st after team told one d e =
    let (a, e1) = passed (not db.selects_team) "internal_error" _ (after, (team, told)) e in
    let (t, f, e2) =
      succeeded (found "rope_team_not_found" (team_of user st)) _ (after, (team, told)) e1 in
    let (b, e3) = passed (not db.lists_members) "internal_error" _ (after, (team, told)) e2 in
    let (c, e4) = passed (not db.deletes) "internal_error" _ (after, (team, told)) e3 in
    deleted user other st t taken one d (found_some "rope_team_not_found" (team_of user st) t f)
      (after, (team, told)) (ok_inj _ (after, (team, told)) e4)
