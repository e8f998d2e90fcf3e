-- ===== src/BossCycle/Kicks.antt =====
-- The state "kicking", which only `markBossKicked` reads.
use monitor_backend.Base.{
  ℕ, suc, All, ◌≡◌, ◌≢◌, refl, sym, subst, inl, inr, String, Bool, true, false, not, ◌&&◌, ◌||◌,
  Option, none, some, List, [], ◌∷◌, ◌==◌, string_eq, nat_eq, eq_iff, if◌then◌else◌, arith,
  Bool-cases,
}
use monitor_backend.Base.Results.{Result, ok, err}
use monitor_backend.Protocol.{RopePartyProgressPayload}
use monitor_backend.BossCycle.{Team, World, Taken, find, has, update_where, in_cycle, set_state}
use monitor_backend.BossCycle.Starting.{
  Database, Plan, plan_cycle, open_cycle, announce_cycle, is_empty, invite_command, invited,
  start_boss_buff_cycle, run_plan,
}
use monitor_backend.BossCycle.Handlers.{
  mark_boss_joined, joined_team, mark_boss_buff_completed, reconcile_boss_buff_cycle,
  resume_pending_boss_buff_cycle, resume_team, mark_boss_kicked, is_kicked, is_progress_of, is_open,
  is_casting, is_uncompleted,
}
use monitor_backend.Hub.Commands.{send_command}
use monitor_backend.BossCycle.{rope_team_pending_cycle_session_ids}
use monitor_backend.BossCycle.Barrier.{mark_boss_buff_completed-barrier, reconcile-barrier}

-- No team is in the state "kicking".
abbrev pub NoKicks : List Team → Type 0
NoKicks ts = All (λ (t : Team). t.boss_cycle_state ≢ "kicking") ts

update-NoKicks :
    (p : Team → Bool) (f : Team → Team) (ts : List Team)
    → ((t : Team) → (f t).boss_cycle_state ≢ "kicking")
    → NoKicks ts
    → NoKicks (update_where p f ts)
update-NoKicks p f [] e a = tt
update-NoKicks p f (t ∷ ts) e a = (one (p t), update-NoKicks p f ts e a.1)
  where
    one : (b : Bool) → (if b then f t else t).boss_cycle_state ≢ "kicking"
    one true = e t
    one false = a.0

inviting-ne : ◌≢◌ {A = String} "inviting" "kicking"
inviting-ne = ground (arith, eq_iff "inviting" "kicking")

casting-ne : ◌≢◌ {A = String} "casting" "kicking"
casting-ne = ground (arith, eq_iff "casting" "kicking")

disbanding-ne : ◌≢◌ {A = String} "disbanding" "kicking"
disbanding-ne = ground (arith, eq_iff "disbanding" "kicking")

idle-ne : ◌≢◌ {A = String} "idle" "kicking"
idle-ne = ground (arith, eq_iff "idle" "kicking")

nobody_kicked :
    (user : ℕ) (session : String) (p : RopePartyProgressPayload) (ts : List Team)
    → NoKicks ts
    → has (is_kicked user session p) ts ≡ false
nobody_kicked user session p [] a = refl
nobody_kicked user session p (t ∷ ts) a =
    ground (arith, a.0, eq_iff t.boss_cycle_state "kicking", nobody_kicked user session p ts a.1)

open_cycle-NoKicks : (p : Plan) (w : World) → NoKicks w.teams → NoKicks (open_cycle p w).teams
unfolding open_cycle
open_cycle-NoKicks p w a =
    update-NoKicks (λ (t : Team). t.id == p.team.id) (invited p) w.teams (λ t. inviting-ne) a

announce_cycle-NoKicks :
    (resets : Bool) (user taken : ℕ) (p : Plan) (w : World)
    → NoKicks w.teams
    → NoKicks (announce_cycle resets user taken p w).0.teams
unfolding announce_cycle
announce_cycle-NoKicks resets user taken p w a = go (
    (send_command p.team.leader_session_id
      (invite_command p.team.id (suc p.team.boss_cycle_id) p.role_name) taken w.hub).1
    || not resets)
  where
    go :
        (sent : Bool)
        → NoKicks (
            if sent
            then w.teams
            else update_where
                (in_cycle p.team.id (suc p.team.boss_cycle_id) "inviting")
                (set_state "idle")
                w.teams)
    go true = a
    go false =
        update-NoKicks (in_cycle p.team.id (suc p.team.boss_cycle_id) "inviting") (set_state "idle")
          w.teams (λ t. idle-ne) a

start-NoKicks :
    (db : Database) (user : ℕ) (session : String) (override : Option String) (taken : ℕ) (w : World)
    → NoKicks w.teams
    → NoKicks (start_boss_buff_cycle db user session override taken w).0.teams
unfolding start_boss_buff_cycle
start-NoKicks db user session override taken w a = go (plan_cycle db user session override w)
  where
    go : (r : Result Plan) → NoKicks (run_plan db.resets user taken w r).0.teams
    go (err x) = a
    go (ok p) =
        announce_cycle-NoKicks db.resets user taken p (open_cycle p w) (open_cycle-NoKicks p w a)

joined-NoKicks :
    (commits : Bool) (user : ℕ) (session : String) (p : RopePartyProgressPayload) (taken : Taken)
    → (w : World) → NoKicks w.teams
    → NoKicks (mark_boss_joined commits user session p taken w).teams
unfolding mark_boss_joined
joined-NoKicks false user session p taken w a = a
joined-NoKicks true user session p taken w a =
    go (find (λ t. is_progress_of user p t && is_open t) w.teams)
  where
    go : (o : Option Team) → NoKicks (joined_team user session taken w o).teams
    go none = a
    go (some t) =
        elim (Bool-cases (
          not (t.leader_session_id == session)
          || is_empty (rope_team_pending_cycle_session_ids t.id t.boss_cycle_id w.members))) [
            | inl e ↦ rw e a
            | inr n ↦ rw n (
                update-NoKicks (in_cycle t.id t.boss_cycle_id "inviting") (set_state "casting")
                  w.teams (λ t. casting-ne) a)
          ]

disbanding-NoKicks :
    (p : Team → Bool) (ts : List Team)
    → NoKicks ts
    → NoKicks (update_where p (set_state "disbanding") ts)
disbanding-NoKicks p ts a = update-NoKicks p (set_state "disbanding") ts (λ t. disbanding-ne) a

-- One call of a function of the boss cycle.
pub data Step (w : World) : World → Type 0 where
  starts :
      (db : Database) (user : ℕ) (session : String) (override : Option String) (taken : ℕ)
      → Step w (start_boss_buff_cycle db user session override taken w).0
  joins :
      (commits : Bool) (user : ℕ) (session : String) (p : RopePartyProgressPayload) (taken : Taken)
      → Step w (mark_boss_joined commits user session p taken w)
  completes :
      (commits : Bool) (user : ℕ) (session : String) (p : RopePartyProgressPayload) (taken : Taken)
      → Step w (mark_boss_buff_completed commits user session p taken w)
  resumes :
      (selects : Bool) (user : ℕ) (session : String) (taken : ℕ)
      → Step w (resume_pending_boss_buff_cycle selects user session taken w)
  reconciles :
      (selects commits : Bool) (user : ℕ) (taken : Taken)
      → Step w (reconcile_boss_buff_cycle selects commits user taken w)
  kicks :
      (commits : Bool) (user : ℕ) (session : String) (p : RopePartyProgressPayload)
      → Step w (mark_boss_kicked commits user session p w)

pub data Reach (w : World) : World → Type 0 where
  here : Reach w w
  next : {x y : World} → Reach w x → Step x y → Reach w y

kicked-same :
    (commits : Bool) (user : ℕ) (session : String) (p : RopePartyProgressPayload) (w : World)
    → NoKicks w.teams
    → mark_boss_kicked commits user session p w ≡ w
unfolding mark_boss_kicked
kicked-same false user session p w a = refl
kicked-same true user session p w a = rw (nobody_kicked user session p w.teams a) refl

resume-teams :
    (selects : Bool) (user : ℕ) (session : String) (taken : ℕ) (w : World)
    → (resume_pending_boss_buff_cycle selects user session taken w).teams ≡ w.teams
unfolding resume_pending_boss_buff_cycle
resume-teams false user session taken w = refl
resume-teams true user session taken w = go (
    find
      (λ t.
        t.user_id == user
        && is_casting t
        && has (is_uncompleted t.id session t.boss_cycle_id) w.members)
      w.teams)
  where
    go : (o : Option Team) → (resume_team session taken w o).teams ≡ w.teams
    go none = refl
    go (some t) = refl

Step-NoKicks : {w w' : World} → Step w w' → NoKicks w.teams → NoKicks w'.teams
Step-NoKicks {w} (starts db user session override taken) a =
    start-NoKicks db user session override taken w a
Step-NoKicks {w} (joins commits user session p taken) a =
    joined-NoKicks commits user session p taken w a
Step-NoKicks {w} (completes commits user session p taken) a =
    elim (mark_boss_buff_completed-barrier commits user session p taken w) [
      | inl e ↦ subst NoKicks (sym e) a
      | inr (t, f, d) ↦ subst NoKicks (sym d.0) (disbanding-NoKicks _ w.teams a)
    ]
Step-NoKicks {w} (resumes selects user session taken) a =
    subst NoKicks (sym (resume-teams selects user session taken w)) a
Step-NoKicks {w} (reconciles selects commits user taken) a =
    elim (reconcile-barrier selects commits user taken w) [
      | inl e ↦ subst NoKicks (sym e) a
      | inr (t, f, s, d) ↦ subst NoKicks (sym d.0) (disbanding-NoKicks _ w.teams a)
    ]
Step-NoKicks {w} (kicks commits user session p) a =
    subst (λ (x : World). NoKicks x.teams) (sym (kicked-same commits user session p w a)) a

Reach-NoKicks : {w w' : World} → Reach w w' → NoKicks w.teams → NoKicks w'.teams
Reach-NoKicks here a = a
Reach-NoKicks (next run step) a = Step-NoKicks step (Reach-NoKicks run a)

-- After any calls of the boss cycle's functions, from teams of which none is in the state
-- "kicking", a receipt that the boss was kicked changes nothing.
pub mark_boss_kicked-same :
    (w w' : World) (commits : Bool) (user : ℕ) (session : String) (p : RopePartyProgressPayload)
    → NoKicks w.teams
    → Reach w w'
    → mark_boss_kicked commits user session p w' ≡ w'
mark_boss_kicked-same w w' commits user session p a run =
    kicked-same commits user session p w' (Reach-NoKicks run a)
