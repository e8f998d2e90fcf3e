-- ===== src/ExpGain/Restarts.antt =====
-- What `loadFromDB` finds of a user that `persistUser` has written.
use monitor_backend.Base.{
  ℕ, ◌≡◌, refl, sym, ap, subst, ◌∙◌, String, Bool, true, Option, none, some, List, [], ◌∷◌, ◌++◌,
  ◌==◌, string_eq, nat_eq, eq_iff, nat_beq_iff, if◌then◌else◌, ltb, Map, lookup, insert,
  lookup-insert, arith, Bool-cases, inl, inr, keep,
}
use monitor_backend.Base.Int.{pos}
use monitor_backend.ExpGain.{
  UserState, Sample, roll_daily, calendar_date, ensure_state, state_or_new,
}
use monitor_backend.ExpGain.Store.{
  Stats, SampleRow, Tables, stats_of, write_user, persist_user, loaded, load_stats, load_samples,
  Loading, load_from_db, with_sample, sample_of, order_rows, is_recent, session_value,
  or_no_session, baseline_of,
}

-- No user has two rows: the key of the table.
abbrev pub Keyed : Map ℕ Stats → Type 0
Keyed [] = Unit
Keyed ((user, r) ∷ rows) = (lookup user rows ≡ none) × Keyed rows

insert-Keyed : (user : ℕ) (r : Stats) (rows : Map ℕ Stats) → Keyed rows → Keyed (insert user r rows)
unfolding insert lookup
insert-Keyed user r [] k = (refl, tt)
insert-Keyed user r ((v, x) ∷ rows) k = elim (Bool-cases (v == user)) [
  | inl e ↦ rw e (ground (arith, nat_beq_iff v user), k.1)
  | inr n ↦ rw n (
    ground (arith, lookup-insert user v r rows, nat_beq_iff user v, nat_beq_iff v user),
    insert-Keyed user r rows k.1,
  )
]

abbrev from_row : ℕ → Option Stats → Option UserState → Option UserState
from_row now none o = o
from_row now (some r) o = some (loaded now r)

load_stats-lookup :
    (now user : ℕ) (rows : Map ℕ Stats) (states : Map ℕ UserState)
    → Keyed rows
    → lookup user (load_stats now rows states)
      ≡ from_row now (lookup user rows) (lookup user states)
unfolding load_stats lookup
load_stats-lookup now user [] states k = refl
load_stats-lookup now user ((v, r) ∷ rows) states k =
    load_stats-lookup now user rows (insert v (loaded now r) states) k.1
    ∙ elim (Bool-cases (v == user)) [
      | inl e ↦
          let same = (nat_beq_iff v user).0 e in
          rw
            (
              e,
              subst (λ u. lookup u rows ≡ none) same k.0,
              lookup-insert v user (loaded now r) states,
              e,
            )
            refl
      | inr n ↦ rw (n, lookup-insert v user (loaded now r) states, n) refl
    ]

-- The samples of a state may have grown.
abbrev pub Extends : UserState → Option UserState → Type 0
Extends s o = (xs : List Sample) × (o ≡ some (record s { samples = xs }))

load_samples-Extends :
    (now user : ℕ) (s : UserState) (rows : List SampleRow) (states : Map ℕ UserState)
    → Extends s (lookup user states)
    → Extends s (lookup user (load_samples now rows states))
unfolding load_samples
load_samples-Extends now user s [] states v = v
load_samples-Extends now user s (r ∷ rows) states (xs, e) = load_samples-Extends now user s rows _ (
    rw
      (lookup-insert r.user_id user (with_sample (sample_of r) (ensure_state r.user_id now states))
        states)
      (elim (Bool-cases (r.user_id == user)) [
        | inl p ↦
            let same = (nat_beq_iff r.user_id user).0 p in
            rw p (
              xs ++ (sample_of r ∷ []),
              ap (λ o. some (with_sample (sample_of r) (state_or_new now o)))
                  (ap (λ u. lookup u states) same ∙ e),
            )
        | inr n ↦ rw n (xs, e)
      ]))

persisted_row :
    (user now : ℕ) (states : Map ℕ UserState) (s : UserState) (t : Tables)
    → lookup user states ≡ some s
    → lookup user (persist_user user true now states t).tables.stats ≡ some (stats_of now s)
unfolding persist_user write_user
persisted_row user now states s t e =
    rw (e, persist_user)
      (ground (arith, lookup-insert user user (stats_of now s) t.stats, nat_beq_iff user user))

persisted-Keyed :
    (user now : ℕ) (states : Map ℕ UserState) (s : UserState) (t : Tables)
    → lookup user states ≡ some s
    → Keyed t.stats
    → Keyed (persist_user user true now states t).tables.stats
unfolding persist_user write_user
persisted-Keyed user now states s t e k =
    rw (e, persist_user) (insert-Keyed user (stats_of now s) t.stats k)

-- What a restart keeps of a user's state: the total, the day's counter if it is still the same day,
-- and the last reading with its session.
pub record Survives (now : ℕ) (s r : UserState) : Type 0 where
  pub total : r.total_gained ≡ s.total_gained
  pub day :
      r.daily_gained ≡ (if ltb s.daily_date (calendar_date now) then pos 0 else s.daily_gained)
  pub reading : r.last_current_exp ≡ s.last_current_exp
  pub session : r.session_id ≡ s.session_id
  pub baseline : r.session_exp ≡ baseline_of (session_value s.session_id) s.last_current_exp

session_round_trip : (s : String) → or_no_session (session_value s) ≡ s
session_round_trip s = ground (arith, eq_iff s "")

loaded-Survives :
    (now later : ℕ) (s : UserState) (xs : List Sample)
    → Survives later s (record (loaded later (stats_of now s)) { samples = xs })
unfolding loaded stats_of roll_daily
loaded-Survives now later s xs = elim (Bool-cases (ltb s.daily_date (calendar_date later))) [
  | inl old ↦ rw old (record {
    total = refl;
    day = sym (ap (λ (b : Bool). if b then pos 0 else s.daily_gained) old);
    reading = refl;
    session = session_round_trip s.session_id;
    baseline = refl;
  })
  | inr today ↦ rw today (record {
    total = refl;
    day = sym (ap (λ (b : Bool). if b then pos 0 else s.daily_gained) today);
    reading = refl;
    session = session_round_trip s.session_id;
    baseline = refl;
  })
]

restarted :
    (a b : Option ℕ) (user now later : ℕ) (states : Map ℕ UserState) (s : UserState) (t : Tables)
    → (after : Map ℕ UserState) → lookup user states ≡ some s
    → Keyed t.stats
    → load_from_db
        (record { stats_end = a; samples_end = b })
        later
        (persist_user user true now states t).tables
      ≡ (after, true)
    → (r : UserState) × (lookup user after ≡ some r) × Survives later s r
unfolding load_from_db
restarted (some n) b user now later states s t after e k loads = absurd (cc loads)
restarted none (some m) user now later states s t after e k loads = absurd (cc loads)
restarted none none user now later states s t after e k loads =
    let row =
      load_stats-lookup later user (persist_user user true now states t).tables.stats []
        (persisted-Keyed user now states s t e k) in
    let found =
      row ∙ ap (λ o. from_row later o (lookup user [])) (persisted_row user now states s t e) in
    let (xs, q) =
      load_samples-Extends later user (loaded later (stats_of now s))
        (order_rows []
          (keep (is_recent later) (persist_user user true now states t).tables.samples))
        _ (_, found) in
    (
      _,
      ap (lookup user) (ap (λ (x : Map ℕ UserState × Bool). x.0) (sym loads)) ∙ q,
      loaded-Survives now later s xs,
    )

-- A user's state is written by a successful `persistUser` to tables in which no user has two rows
-- of statistics. A service that starts on these tables and loads them without an error then has a state
-- for the user with the same total, the same counter if the day is not over and 0 otherwise, and the
-- same last reading and session, which are its baseline.
pub load_from_db-persist_user :
    (db : Loading) (user now later : ℕ) (states : Map ℕ UserState) (s : UserState) (t : Tables)
    → (after : Map ℕ UserState) → lookup user states ≡ some s
    → Keyed t.stats
    → load_from_db db later (persist_user user true now states t).tables ≡ (after, true)
    → (r : UserState) × (lookup user after ≡ some r) × Survives later s r
load_from_db-persist_user db = restarted db.stats_end db.samples_end
