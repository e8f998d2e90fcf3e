-- ===== src/ExpGain/Tests.antt =====
-- The experience statistics at concrete readings.
use monitor_backend.Base.{
  ℕ, ◌≡◌, ◌≢◌, refl, true, false, none, some, List, [], ◌∷◌, string_eq, nat_eq, Map, lookup, insert,
  map_values, arith,
}
use monitor_backend.Base.Int.{pos, add64, sub64}
use monitor_backend.Hub.{new_hub}
use monitor_backend.ExpGain.{
  UserState, new_state, record_reading, payload, calendar_date, ensure_state, roll_daily,
}
use monitor_backend.ExpGain.Store.{
  Tables, persist_user, Loading, load_from_db, flush_dirty, stats_of, reset_total, clear_dirty,
  write_user,
}
use monitor_backend.ExpGain.Ticking.{Service, tick}
use monitor_backend.ExpGain.Counting.{readings, Stands, readings-Stands}
use monitor_backend.ExpGain.Restarts.{load_from_db-persist_user, Survives}
use monitor_backend.ExpGain.Flushing.{flush_dirty-writes, persist-gain_race}
use monitor_backend.ExpGain.Resets.{tick-IsCurrent, IsCurrent, reset_total_lem}

abbrev start : UserState
start = record (new_state 1000) {
  session_exp = ("a", pos 500) ∷ [];
  session_id = "a";
  last_current_exp = some (pos 500);
  dirty = true;
}

start-Stands : Stands "a" 500 0 0 start
unfolding lookup
start-Stands = record { baseline = refl; totals = refl; dailies = refl }

-- A rise, a fall after a level, and two rises.
abbrev seen : List (ℕ × ℕ)
seen = (700, 6000) ∷ (100, 11000) ∷ (150, 16000) ∷ (170, 21000) ∷ []

readings-Stands_example : Stands "a" 170 270 270 (readings "a" seen start)
readings-Stands_example =
    readings-Stands "a" 500 0 0 seen start (omega arith)
      (omega arith, (omega arith, (omega arith, (omega arith, tt)))) (omega arith) (omega arith)
      start-Stands

seen_total : (readings "a" seen start).total_gained ≡ pos 270
unfolding readings lookup insert add64 sub64
seen_total = refl

abbrev states : Map ℕ UserState
states = (7, start) ∷ []

abbrev no_rows : Tables
no_rows = record { stats = []; samples = [] }

start-found : lookup 7 states ≡ some start
unfolding lookup
start-found = refl

abbrev no_error : Loading
no_error = record { stats_end = none; samples_end = none }

restarted_states : Map ℕ UserState
restarted_states = (load_from_db no_error 9000 (persist_user 7 true 2000 states no_rows).tables).0

loads :
    load_from_db no_error 9000 (persist_user 7 true 2000 states no_rows).tables
    ≡ (restarted_states, true)
unfolding restarted_states load_from_db
loads = refl

load_from_db-persist_user_example :
    (r : UserState) × (lookup 7 restarted_states ≡ some r) × Survives 9000 start r
load_from_db-persist_user_example =
    load_from_db-persist_user no_error 7 2000 9000 states start no_rows restarted_states start-found
      tt loads

flush_dirty-writes_example :
    let (states', t') = flush_dirty (λ u. true) true 2000 states no_rows in
    (lookup 7 states' ≡ some (record start { dirty = false }))
    × (lookup 7 t'.stats ≡ some (stats_of 2000 start))
flush_dirty-writes_example = flush_dirty-writes 7 2000 true states no_rows start start-found refl

persist-gain_race_example :
    let s' = record_reading "a" (some (pos 700)) 6000 start in
    let states' = clear_dirty 7 (insert 7 s' states) in
    let t' = write_user 7 start 6001 no_rows in
    (lookup 7 states' ≡ some (record s' { dirty = false }))
    × (s'.total_gained ≡ pos 200)
    × (lookup 7 t'.stats ≡ some (stats_of 6001 start))
    × ((stats_of 6001 start).total_gained ≢ s'.total_gained)
persist-gain_race_example =
    persist-gain_race 7 "a" 500 0 0 700 6000 6001 start states no_rows (omega arith) (omega arith)
      (omega arith) (omega arith) start-Stands

abbrev two_days_later : ℕ
two_days_later = 172801000

abbrev idle_service : Service
idle_service = record { states = states; hub = new_hub }

idle_ticked :
    lookup 7 (tick two_days_later (some []) idle_service).states
    ≡ some (record start { daily_date = calendar_date two_days_later; dirty = true })
unfolding tick lookup map_values roll_daily
idle_ticked = refl

tick-IsCurrent_example :
    IsCurrent two_days_later
      (record start { daily_date = calendar_date two_days_later; dirty = true })
tick-IsCurrent_example = tick-IsCurrent two_days_later 7 [] idle_service _ idle_ticked

reset_total_lem_example :
    let s = roll_daily 2000 (ensure_state 7 2000 states) in
    let kept = record s {
      total_gained = pos 0;
      last_payload = payload 2000 (record s { total_gained = pos 0; dirty = true });
      has_payload = true;
    } in
    let done = reset_total 7 true 2000 states no_rows new_hub in
    let failed = reset_total 7 false 2000 states no_rows new_hub in
    (lookup 7 done.states ≡ some (record kept { dirty = false }))
    × (lookup 7 done.tables.stats ≡ some (stats_of 2000 kept))
    × (done.result ≡ some kept.last_payload)
    × (failed.result ≡ none)
    × (failed.tables ≡ no_rows)
    × (lookup 7 failed.states ≡ some (record kept { dirty = true }))
reset_total_lem_example = reset_total_lem 7 2000 states no_rows new_hub
