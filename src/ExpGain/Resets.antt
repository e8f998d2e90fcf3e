-- ===== src/ExpGain/Resets.antt =====
-- What is set back: the day's counter by a tick, and the total by `ResetTotal`.
use monitor_backend.Base.{
  ℕ, ◌≡◌, refl, sym, subst, ◌∙◌, true, false, Option, none, some, List, [], string_eq, nat_eq,
  nat_beq_iff, ltb, Map, lookup, insert, lookup-insert, lookup-map_values, arith,
}
use mathlib.Core.Option
use monitor_backend.Base.Int.{pos}
use monitor_backend.Hub.{Hub}
use monitor_backend.ExpGain.{UserState, roll_daily, calendar_date, ensure_state, payload}
use monitor_backend.ExpGain.Ticking.{
  Service, SessionRow, tick, roll_if_old, visit_users, sessions_by_user, active_sessions,
}
use monitor_backend.ExpGain.Store.{
  Tables, stats_of, reset_total, reset_state, persist_user, clear_dirty, write_user,
}

-- The day of a state is not over.
abbrev pub IsCurrent : ℕ → UserState → Type 0
IsCurrent now s = ltb s.daily_date (calendar_date now) ≡ false

roll-IsCurrent : (now : ℕ) (s : UserState) → IsCurrent now (roll_if_old now s)
unfolding roll_daily
roll-IsCurrent now s = ground arith

-- After a tick whose query succeeded no user's state is of an earlier day, active sessions or not.
pub tick-IsCurrent :
    (now user : ℕ) (rows : List SessionRow) (v : Service) (s : UserState)
    → lookup user (tick now (some rows) v).states ≡ some s
    → IsCurrent now s
unfolding tick
tick-IsCurrent now user rows v s e =
    found (lookup user states) (sym (lookup-map_values (roll_if_old now) user states) ∙ e)
  where
    states : Map ℕ UserState
    states = (visit_users v.hub now (sessions_by_user [] (active_sessions rows)) v.states).0

    found : (o : Option UserState) → Option.map (roll_if_old now) o ≡ some s → IsCurrent now s
    found none q = absurd (cc q)
    found (some x) q =
        subst (IsCurrent now) {x = roll_if_old now x} {y = s} (cc q) (roll-IsCurrent now x)

-- If the transaction of `ResetTotal` succeeds, state, row and answer have the total 0, and the
-- day's counter that the state had, or 0 if its day was over; the state is clean. If it fails
-- there is no answer and the tables are as before, but the total in memory is 0 all the same, with
-- the flag set.
pub reset_total_lem :
    (user now : ℕ) (states : Map ℕ UserState) (t : Tables) (hub : Hub)
    → let s = roll_daily now (ensure_state user now states) in
      let kept = record s {
        total_gained = pos 0;
        last_payload = payload now (record s { total_gained = pos 0; dirty = true });
        has_payload = true;
      } in
      let done = reset_total user true now states t hub in
      let failed = reset_total user false now states t hub in
      (lookup user done.states ≡ some (record kept { dirty = false }))
      × (lookup user done.tables.stats ≡ some (stats_of now kept))
      × (done.result ≡ some kept.last_payload)
      × (failed.result ≡ none)
      × (failed.tables ≡ t)
      × (lookup user failed.states ≡ some (record kept { dirty = true }))
unfolding reset_total persist_user clear_dirty write_user stats_of
reset_total_lem user now states t hub =
    rw (self (reset_state now (ensure_state user now states)) states, persist_user, clear_dirty)
      (
        cleared (insert user (reset_state now (ensure_state user now states)) states)
            (reset_state now (ensure_state user now states)) (self _ states),
        self _ t.stats,
        refl,
        refl,
        refl,
        self _ states,
      )
  where
    self : {V : Type 0} (x : V) (m : Map ℕ V) → lookup user (insert user x m) ≡ some x
    self x m = rw (lookup-insert user user x m, (nat_beq_iff user user).1 refl)

    cleared :
        (m : Map ℕ UserState) (x : UserState)
        → lookup user m ≡ some x
        → lookup user (clear_dirty user m) ≡ some (record x { dirty = false })
    cleared m x e = rw (e, clear_dirty) (self (record x { dirty = false }) m)
