-- ===== src/BossCycle/Barrier.antt =====
-- The barrier at the end of a cycle: who is pending, and when the team disbands.
use monitor_backend.Base.{
  ℕ, ◌+◌, ◌≡◌, refl, ◌⊎◌, inl, inr, String, Bool, true, false, not, ◌&&◌, Option, none, some, List,
  [], ◌∷◌, ◌==◌, string_eq, nat_eq, eq_iff, nat_beq_iff, if◌then◌else◌, keep, length, arith,
  Bool-cases,
}
use monitor_backend.Protocol.{ClientCommand, RopePartyProgressPayload}
use monitor_backend.BossCycle.{
  Team, Member, World, Taken, find, has, update_where, in_team, is_member, is_pending, in_cycle,
  set_state, sessions, rope_team_pending_cycle_session_ids,
}
use monitor_backend.BossCycle.Starting.{set_completed, is_empty}
use monitor_backend.BossCycle.Handlers.{
  skip_inactive_boss_cycle_participants, is_uncompleted, all_completed, is_completed,
  mark_boss_buff_completed, completed_at, reconcile_boss_buff_cycle, reconcile_team,
  reconcile_casting, is_progress_of, is_casting, send_to_leader,
}

counts :
    (team cycle : ℕ) (ms : List Member)
    → length (keep (in_team team) ms)
      ≡ length (keep (is_completed team cycle) ms) + length (keep (is_pending team cycle) ms)
counts team cycle [] = refl
counts team cycle (m ∷ ms) = ground (arith, counts team cycle ms)

none_kept : (ms : List Member) → length ms ≡ 0 → sessions ms ≡ []
none_kept [] e = refl
none_kept (m ∷ ms) e = absurd (omega arith)

-- The two counts of the code agree only if nobody is pending.
all_completed-pending :
    (team cycle : ℕ) (ms : List Member)
    → all_completed team cycle ms ≡ true
    → rope_team_pending_cycle_session_ids team cycle ms ≡ []
unfolding all_completed rope_team_pending_cycle_session_ids
all_completed-pending team cycle ms e = none_kept (keep (is_pending team cycle) ms) (
    ground (
      arith,
      counts team cycle ms,
      nat_beq_iff (length (keep (is_completed team cycle) ms)) (length (keep (in_team team) ms)),
    ))

is_empty-eq : (ids : List String) → is_empty ids ≡ true → ids ≡ []
is_empty-eq [] e = refl
is_empty-eq (id ∷ ids) e = absurd (cc e)

-- The team of row `t` goes from casting to disbanding, and nobody is pending in its cycle.
abbrev pub Disbands : Team → World → World → Type 0
Disbands t w w' =
    (w'.teams
      ≡ update_where (in_cycle t.id t.boss_cycle_id "casting") (set_state "disbanding") w.teams)
    × (rope_team_pending_cycle_session_ids t.id t.boss_cycle_id w'.members ≡ [])

-- A completion receipt changes no team's row, or it lets the team that it names disband, which was
-- casting, and then no member of that team is pending in the cycle any more.
pub mark_boss_buff_completed-barrier :
    (commits : Bool) (user : ℕ) (session : String) (p : RopePartyProgressPayload) (taken : Taken)
    → (w : World)
    → let w' = mark_boss_buff_completed commits user session p taken w in
      (w'.teams ≡ w.teams)
      ⊎ ((t : Team) × (find (λ t. is_progress_of user p t && is_casting t) w.teams ≡ some t)
          × Disbands t w w')
unfolding mark_boss_buff_completed
mark_boss_buff_completed-barrier false user session p taken w = inl refl
mark_boss_buff_completed-barrier true user session p taken w =
    go (find (λ t. is_progress_of user p t && is_casting t) w.teams)
  where
    go :
        (o : Option Team)
        → ((completed_at user session taken w o).teams ≡ w.teams)
          ⊎ ((t : Team) × (o ≡ some t) × Disbands t w (completed_at user session taken w o))
    go none = inl refl
    go (some t) = elim (Bool-cases (has (is_uncompleted t.id session t.boss_cycle_id) w.members)) [
      | inr n ↦ rw n (inl refl)
      | inl y ↦
          let marked =
            update_where (is_member t.id session) (set_completed t.boss_cycle_id) w.members in
          let ms = skip_inactive_boss_cycle_participants w.hub t.id t.boss_cycle_id marked in
          elim (Bool-cases (all_completed t.id t.boss_cycle_id ms)) [
            | inl a ↦
                rw (y, a) (inr (t, refl, (refl, all_completed-pending t.id t.boss_cycle_id ms a)))
            | inr b ↦ rw (y, b) (inl refl)
          ]
    ]

-- A heartbeat changes no team's row, or the user's team, which was casting, disbands, and then no
-- member of that team is pending in the cycle any more.
pub reconcile-barrier :
    (selects commits : Bool) (user : ℕ) (taken : Taken) (w : World)
    → let w' = reconcile_boss_buff_cycle selects commits user taken w in
      (w'.teams ≡ w.teams)
      ⊎ ((t : Team) × (find (λ t. t.user_id == user && not (t.boss_cycle_state == "idle")) w.teams
            ≡ some t)
          × (t.boss_cycle_state ≡ "casting")
          × Disbands t w w')
unfolding reconcile_boss_buff_cycle
reconcile-barrier false commits user taken w = inl refl
reconcile-barrier true commits user taken w =
    go (find (λ t. t.user_id == user && not (t.boss_cycle_state == "idle")) w.teams)
  where
    leader : (t : Team) (c : ClientCommand) → (send_to_leader t c taken w).teams ≡ w.teams
    leader t c = ground arith

    casting :
        (t : Team)
        → ((reconcile_casting user taken t w).teams ≡ w.teams)
          ⊎ Disbands t w (reconcile_casting user taken t w)
    casting t =
        let ms = skip_inactive_boss_cycle_participants w.hub t.id t.boss_cycle_id w.members in
        let pending = rope_team_pending_cycle_session_ids t.id t.boss_cycle_id ms in
        elim (Bool-cases (is_empty pending)) [
          | inl e ↦ rw e (inr (refl, is_empty-eq pending e))
          | inr n ↦ rw n (inl refl)
        ]

    passed :
        (b : Bool) (t : Team)
        → t.boss_cycle_state ≡ "casting"
        → let w' = if b then reconcile_casting user taken t w else w in
          (w'.teams ≡ w.teams)
          ⊎ ((x : Team) × (some t ≡ some x) × (x.boss_cycle_state ≡ "casting") × Disbands x w w')
    passed false t e = inl refl
    passed true t e = elim (casting t) [ inl q ↦ inl q | inr d ↦ inr (t, refl, e, d) ]

    go :
        (o : Option Team)
        → ((reconcile_team commits user taken w o).teams ≡ w.teams)
          ⊎ ((t : Team) × (o ≡ some t)
              × (t.boss_cycle_state ≡ "casting")
              × Disbands t w (reconcile_team commits user taken w o))
    go none = inl refl
    go (some t) = elim (Bool-cases (t.boss_cycle_state == "inviting")) [
      | inl a ↦ rw a (inl (leader t _))
      | inr a ↦ elim (Bool-cases (t.boss_cycle_state == "casting")) [
        | inl b ↦ rw (a, b) (passed commits t ((eq_iff t.boss_cycle_state "casting").0 b))
        | inr b ↦ elim (Bool-cases (t.boss_cycle_state == "disbanding")) [
          | inl c ↦ rw (a, b, c) (inl (leader t _))
          | inr c ↦ rw (a, b, c) (inl refl)
        ]
      ]
    ]
