-- ===== src/BossCycle/Frozen.antt =====
-- The members that take part in a cycle that starts.
use monitor_backend.Base.{
  ℕ, suc, All, ◌≡◌, refl, sym, ap, ◌∙◌, String, Bool, true, false, not, ◌||◌, Option, some, List,
  [], ◌∷◌, ◌==◌, string_eq, nat_eq, eq_iff, nat_beq_iff, keep, arith, Bool-cases, inl, inr,
}
use monitor_backend.Base.Results.{Result, ok, err}
use monitor_backend.BossCycle.{
  Team, Member, World, update_where, in_team, is_member, is_pending, sessions, team_of_member,
  rope_team_pending_cycle_session_ids, rope_team_member_session_ids, is_active_temple_client,
  active_temple_client_session_ids, contains_session_id,
}
use monitor_backend.BossCycle.Starting.{
  Database, Plan, plan_cycle, open_cycle, set_completed, set_pending, announce_cycle,
  start_boss_buff_cycle, run_plan,
}
use monitor_backend.BossCycle.Skips.{contains-keep, keep_same, contained}

-- The team's rows are pending exactly at the sessions that `q` names.
abbrev Marked : ℕ → ℕ → (String → Bool) → List Member → Type 0
Marked team cycle q ms =
    All
      (λ (m : Member).
        in_team team m ≡ true → (not (m.boss_completed_cycle_id == cycle)) ≡ q m.session_id)
      ms

closed-Marked :
    (team cycle : ℕ) (ms : List Member)
    → Marked team cycle (λ s. false) (update_where (in_team team) (set_completed cycle) ms)
closed-Marked team cycle [] = tt
closed-Marked team cycle (m ∷ ms) =
    (λ e. ground (arith, nat_beq_iff cycle cycle), closed-Marked team cycle ms)

one-Marked :
    (team cycle : ℕ) (id : String) (q : String → Bool) (ms : List Member)
    → Marked team (suc cycle) q ms
    → Marked team
        (suc cycle)
        (λ s. id == s || q s)
        (update_where (is_member team id) (set_completed 0) ms)
one-Marked team cycle id q [] a = tt
one-Marked team cycle id q (m ∷ ms) a = (
  λ e. ground (arith, a.0, eq_iff m.session_id id, eq_iff id m.session_id),
  one-Marked team cycle id q ms a.1,
)

re-Marked :
    (team cycle : ℕ) (p q : String → Bool) (ms : List Member)
    → ((s : String) → p s ≡ q s)
    → Marked team cycle p ms
    → Marked team cycle q ms
re-Marked team cycle p q [] e a = tt
re-Marked team cycle p q (m ∷ ms) e a =
    (λ i. a.0 i ∙ e m.session_id, re-Marked team cycle p q ms e a.1)

set_pending-Marked :
    (team cycle : ℕ) (ids : List String) (q : String → Bool) (ms : List Member)
    → Marked team (suc cycle) q ms
    → Marked team (suc cycle) (λ s. contains_session_id ids s || q s) (set_pending team ids ms)
unfolding set_pending contains_session_id
set_pending-Marked team cycle [] q ms a = a
set_pending-Marked team cycle (id ∷ ids) q ms a =
    re-Marked team (suc cycle) (λ s. contains_session_id ids s || (id == s || q s)) _ _
      (λ s. ground arith)
      (set_pending-Marked team cycle ids (λ s. id == s || q s) _ (one-Marked team cycle id q ms a))

update-sessions :
    (team : ℕ) (p : Member → Bool) (cycle : ℕ) (ms : List Member)
    → sessions (keep (in_team team) (update_where p (set_completed cycle) ms))
      ≡ sessions (keep (in_team team) ms)
update-sessions team p cycle [] = refl
update-sessions team p cycle (m ∷ ms) = ground (arith, update-sessions team p cycle ms)

set_pending-sessions :
    (team : ℕ) (ids : List String) (ms : List Member)
    → sessions (keep (in_team team) (set_pending team ids ms)) ≡ sessions (keep (in_team team) ms)
unfolding set_pending
set_pending-sessions team [] ms = refl
set_pending-sessions team (id ∷ ids) ms =
    set_pending-sessions team ids _ ∙ update-sessions team (is_member team id) 0 ms

pending-Marked :
    (team cycle : ℕ) (q : String → Bool) (ms : List Member)
    → Marked team cycle q ms
    → sessions (keep (is_pending team cycle) ms) ≡ keep q (sessions (keep (in_team team) ms))
pending-Marked team cycle q [] a = refl
pending-Marked team cycle q (m ∷ ms) a = elim (Bool-cases (in_team team m)) [
  | inl i ↦ rw i (ground (arith, a.0 i, pending-Marked team cycle q ms a.1))
  | inr n ↦ rw n (pending-Marked team cycle q ms a.1)
]

-- The writes of a start make exactly the participants pending.
open_cycle-pending :
    (p : Plan) (w : World)
    → rope_team_pending_cycle_session_ids p.team.id
        (suc p.team.boss_cycle_id)
        (open_cycle p w).members
      ≡ keep (contains_session_id p.participants) (rope_team_member_session_ids p.team.id w.members)
unfolding open_cycle rope_team_pending_cycle_session_ids rope_team_member_session_ids
open_cycle-pending p w =
    let team = p.team.id in
    let cycle = p.team.boss_cycle_id in
    let closed = update_where (in_team team) (set_completed (suc cycle)) w.members in
    pending-Marked team (suc cycle) (contains_session_id p.participants) _ (
      re-Marked team (suc cycle) _ (contains_session_id p.participants) _ (λ s. ground arith)
        (set_pending-Marked team cycle p.participants (λ s. false) closed
          (closed-Marked team (suc cycle) w.members)))
    ∙ ap (keep (contains_session_id p.participants)) (
        set_pending-sessions team p.participants closed
        ∙ update-sessions team (in_team team) (suc cycle) w.members)

-- What a plan that passes all checks says of the rows and the hub.
pub record IsPlan (user : ℕ) (session : String) (w : World) (p : Plan) : Type 0 where
  pub found : team_of_member user session w ≡ some p.team
  pub idle : (p.team.boss_cycle_state == "idle") ≡ true
  pub created : p.team.created_in_game ≡ true
  pub online :
      p.participants
      ≡ active_temple_client_session_ids w.hub (rope_team_member_session_ids p.team.id w.members)
  pub led : contains_session_id p.participants p.team.leader_session_id ≡ true

plan_cycle-IsPlan :
    (db : Database) (user : ℕ) (session : String) (override : Option String) (w : World) (p : Plan)
    → plan_cycle db user session override w ≡ ok p
    → IsPlan user session w p
unfolding plan_cycle
plan_cycle-IsPlan db user session override w p e = record {
  found = ground arith;
  idle = ground arith;
  created = ground arith;
  online = ground arith;
  led = ground arith;
}

-- A start that succeeds is of an idle team that exists in the game, and the members that are
-- pending in the new cycle are exactly those whose clients are connected and running in the temple
-- mode, in the order of the rows. The leader is one of them.
pub start_boss_buff_cycle-freezes :
    (db : Database) (user : ℕ) (session : String) (override : Option String) (taken : ℕ)
    → (w w' : World) (why : String)
    → start_boss_buff_cycle db user session override taken w ≡ (w', (true, why))
    → (t : Team) × (team_of_member user session w ≡ some t)
      × (t.boss_cycle_state ≡ "idle")
      × (t.created_in_game ≡ true)
      × (contains_session_id
            (rope_team_pending_cycle_session_ids t.id (suc t.boss_cycle_id) w'.members)
            t.leader_session_id
          ≡ true)
      × (rope_team_pending_cycle_session_ids t.id (suc t.boss_cycle_id) w'.members
          ≡ active_temple_client_session_ids w.hub (rope_team_member_session_ids t.id w.members))
unfolding start_boss_buff_cycle announce_cycle active_temple_client_session_ids
start_boss_buff_cycle-freezes db user session override taken w w' why e =
    go (plan_cycle db user session override w) refl e
  where
    frozen :
        (p : Plan)
        → IsPlan user session w p
        → rope_team_pending_cycle_session_ids p.team.id
            (suc p.team.boss_cycle_id)
            (open_cycle p w).members
          ≡ p.participants
    frozen p v =
        open_cycle-pending p w
        ∙ ap (λ ids. keep (contains_session_id ids) all) v.online
        ∙ keep_same (contains_session_id (keep active all)) active all (every all (contained all))
        ∙ sym v.online
      where
        all : List String
        all = rope_team_member_session_ids p.team.id w.members

        active : String → Bool
        active = is_active_temple_client w.hub

        every :
            (xs : List String)
            → All (λ s. contains_session_id all s ≡ true) xs
            → All (λ s. contains_session_id (keep active all) s ≡ active s) xs
        every [] a = tt
        every (x ∷ xs) a = (ground (arith, contains-keep active all x, a.0), every xs a.1)

    go :
        (r : Result Plan)
        → plan_cycle db user session override w ≡ r
        → run_plan db.resets user taken w r ≡ (w', (true, why))
        → (t : Team) × (team_of_member user session w ≡ some t)
          × (t.boss_cycle_state ≡ "idle")
          × (t.created_in_game ≡ true)
          × (contains_session_id
                (rope_team_pending_cycle_session_ids t.id (suc t.boss_cycle_id) w'.members)
                t.leader_session_id
              ≡ true)
          × (rope_team_pending_cycle_session_ids t.id (suc t.boss_cycle_id) w'.members
              ≡ active_temple_client_session_ids w.hub
                  (rope_team_member_session_ids t.id w.members))
    go (err x) q r = absurd (cc r)
    go (ok p) q r =
        let v = plan_cycle-IsPlan db user session override w p q in
        let same =
          ap (λ ms. rope_team_pending_cycle_session_ids p.team.id (suc p.team.boss_cycle_id) ms)
            (sym (ap (λ (x : World × (Bool × String)). x.0.members) r))
          ∙ frozen p v in
        (
          p.team,
          v.found,
          (eq_iff p.team.boss_cycle_state "idle").0 v.idle,
          v.created,
          ap (λ ids. contains_session_id ids p.team.leader_session_id) same ∙ v.led,
          same ∙ v.online,
        )
