-- ===== src/Server/Handover.antt =====
-- A team that changes its leader.
use monitor_backend.Base.{
  ℕ, ◌≡◌, ◌≢◌, refl, sym, ap, subst, ◌∙◌, inl, inr, String, Bool, true, false, not, ◌||◌, Option,
  none, some, ◌==◌, string_eq, nat_eq, eq_iff, nat_beq_iff, if◌then◌else◌, arith, Bool-cases,
}
use monitor_backend.Base.Int.{ℤ, pos}
use monitor_backend.Protocol.{RopePartyProgressPayload}
use monitor_backend.Hub.{Hub}
use monitor_backend.BossCycle.{Team, Taken, find, update_where}
use monitor_backend.Server.{Store}
use monitor_backend.Server.Rows.{some_inj, find-passes, find-update, find-update_missed}
use monitor_backend.Server.Teams.Saving.{is_team}
use monitor_backend.Server.Teams.Configuring.{notify_user}
use monitor_backend.Server.Teams.Ending.{
  configure_saved_rope_team, configure_found, configure_saved, uncreated, is_team_of, saved_roles,
  guest_roles,
}
use monitor_backend.Server.Joins.{owns, notify_if}
use monitor_backend.Server.Progress.{
  Reports, report_progress, finish, team_disbanded, leave_leader, drop_team, Update, is_left,
  state_of, ack_progress,
}

-- The team of this id and user is idle, is not created in the game and has this leader.
abbrev pub Ready : ℕ → ℤ → String → Store → Type 0
Ready user team leader st =
    (t : Team) × (find (owns user team) st.world.teams ≡ some t)
    × (t.leader_session_id ≡ leader)
    × (t.boss_cycle_state ≡ "idle")
    × (t.created_in_game ≡ false)

uncreated-Ready :
    (user : ℕ) (team : ℤ) (leader : String) (p : Team → Bool) (st : Store) (hub : Hub)
    → Ready user team leader st
    → Ready user team leader (
        notify_user user hub (record st {
          world = record st.world { teams = update_where p uncreated st.world.teams };
        }))
uncreated-Ready user team leader p st hub (t, f, l, s, c) = elim (Bool-cases (p t)) [
  | inl h ↦ (
    uncreated t,
    find-update (owns user team) p uncreated st.world.teams t (λ x. refl) f h,
    l,
    refl,
    refl,
  )
  | inr n ↦
      (t, find-update_missed (owns user team) p uncreated st.world.teams t (λ x. refl) f n, l, s, c)
]

configured-Ready :
    (selects resets : Bool) (user id : ℕ) (team : ℤ) (leader : String) (taken : Taken) (st : Store)
    → Ready user team leader st
    → Ready user team leader (configure_saved_rope_team selects resets user id taken st)
unfolding configure_saved_rope_team
configured-Ready false resets user id team leader taken st r = r
configured-Ready true resets user id team leader taken st r = go (find (is_team id) st.world.teams)
  where
    sent :
        (t : Team) (h : Hub × Bool)
        → Ready user team leader (
            notify_user user h.0 (
              if h.1 || not resets then st else record st {
                world = record st.world {
                  teams = update_where (is_team_of id user) uncreated st.world.teams;
                };
              }))
    sent t (hub, all_sent) = elim (Bool-cases (all_sent || not resets)) [
      | inl e ↦ rw e r
      | inr n ↦ rw n (uncreated-Ready user team leader (is_team_of id user) st hub r)
    ]

    go : (o : Option Team) → Ready user team leader (configure_found resets user id taken st o)
    go none = r
    go (some t) = sent t (
        configure_saved id t.leader_session_id (guest_roles t.leader_session_id (saved_roles t st))
          taken (saved_roles t st) st.world.hub)

left-Ready :
    (db : Reports) (user : ℕ) (team : ℤ) (session : String) (taken : Taken) (st : Store) (t : Team)
    → find (owns user team) st.world.teams ≡ some t
    → t.leader_session_id ≢ session
    → Ready user team t.leader_session_id (leave_leader db user session taken st (some t)).0
left-Ready db user team session taken st t f d =
    configured-Ready db.selects_saved db.resets_saved user t.id team t.leader_session_id taken _ (
      uncreated t,
      find-update (owns user team) (is_left user session (pos t.id)) uncreated st.world.teams t
          (λ x. refl) f
          (ground (
            arith,
            nat_beq_iff t.id t.id,
            find-passes (owns user team) st.world.teams t f,
            eq_iff t.leader_session_id session,
          )),
      refl,
      refl,
      refl,
    )

other_event : (e a b : String) → e ≡ a → (a == b) ≡ false → (e == b) ≡ false
other_event e a b p n = ap (λ x. x == b) p ∙ n

told-Ready :
    (user : ℕ) (session : String) (p : RopePartyProgressPayload) (taken : Taken) (leader : String)
    → (st : Store) (changed : Bool) → Ready user p.team_id leader st
    → Ready user p.team_id leader (finish user session p taken (st, (changed, true)))
unfolding ack_progress
told-Ready user session p taken leader st changed r = elim (Bool-cases (p.receipt_id == "")) [
  | inl e ↦ rw e (go changed)
  | inr n ↦ rw n (go changed)
]
  where
    go : (b : Bool) → Ready user p.team_id leader (notify_if b user st)
    go true = r
    go false = r

leaves :
    (db : Reports) (user : ℕ) (session : String) (p : RopePartyProgressPayload) (taken : Taken)
    → (st : Store) (t : Team) → find (owns user p.team_id) st.world.teams ≡ some t
    → (t.boss_cycle_state == "changing_leader") ≡ true
    → db.writes ≡ true
    → db.reads_state ≡ true
    → team_disbanded db user session p taken st ≡ leave_leader db user session taken st (some t)
unfolding team_disbanded
leaves db user session p taken st t f c w r =
    go (find (owns user p.team_id) st.world.teams) db.writes db.reads_state f w r
  where
    go :
        (o : Option Team) (writes reads : Bool)
        → o ≡ some t
        → writes ≡ true
        → reads ≡ true
        → (if not writes
            then (st, (false, false))
            else if state_of reads o == "changing_leader"
            then leave_leader db user session taken st o
            else drop_team user session p.team_id st)
          ≡ leave_leader db user session taken st (some t)
    go o false reads e x y = cc
    go o true false e x y = cc
    go none true true e x y = cc
    go (some z) true true e x y =
        subst
          (λ (v : Team).
            (if v.boss_cycle_state == "changing_leader"
              then leave_leader db user session taken st (some v)
              else drop_team user session p.team_id st)
            ≡ leave_leader db user session taken st (some t))
          (sym (some_inj z t e)) (rw c refl)

-- While a team changes its leader, the report of any member but the new leader that the party is
-- disbanded makes the team idle, with its new leader and not created in the game, if the state is read
-- and the update succeeds. This holds whatever becomes of the commands to the members.
pub report_progress-Ready :
    (db : Reports) (user : ℕ) (session : String) (p : RopePartyProgressPayload) (taken : Taken)
    → (st : Store) (t : Team) → p.event ≡ "team_disbanded"
    → find (owns user p.team_id) st.world.teams ≡ some t
    → t.boss_cycle_state ≡ "changing_leader"
    → t.leader_session_id ≢ session
    → db.writes ≡ true
    → db.reads_state ≡ true
    → Ready user p.team_id t.leader_session_id (report_progress db user session p taken st)
unfolding report_progress team_disbanded
report_progress-Ready db user session p taken st t e f s d w r =
    let e1 = other_event p.event "team_disbanded" "buff_due" e refl in
    let e2 = other_event p.event "team_disbanded" "boss_joined" e refl in
    let e3 = other_event p.event "team_disbanded" "buff_completed" e refl in
    let e4 = other_event p.event "team_disbanded" "boss_kicked" e refl in
    let e5 = other_event p.event "team_disbanded" "boss_cycle_disbanded" e refl in
    let e6 = other_event p.event "team_disbanded" "team_created" e refl in
    let e7 = other_event p.event "team_disbanded" "invitation_sent" e refl in
    let e8 : (p.event == "team_disbanded") ≡ true = (eq_iff p.event "team_disbanded").1 e in
    let c : (t.boss_cycle_state == "changing_leader") ≡ true =
      (eq_iff t.boss_cycle_state "changing_leader").1 s in
    rw (e1, e2, e3, e4, e5, e6, e7, e8)
      (subst
        (λ (u : Update). Ready user p.team_id t.leader_session_id (finish user session p taken u))
        (sym (leaves db user session p taken st t f c w r))
        (told-Ready user session p taken t.leader_session_id
          (leave_leader db user session taken st (some t)).0
          (leave_leader db user session taken st (some t)).1.0
          (left-Ready db user p.team_id session taken st t f d)))
