-- ===== src/ExpGain/Store.antt =====
-- The two tables of the experience statistics: `persistUser`, `flushDirty`, `loadFromDB` and
-- `ResetTotal`. A transaction that fails leaves the tables alone, and the caller gets the error.
use monitor_backend.Base.{
  ℕ, ◌+◌, String, Bool, true, false, not, Option, none, some, List, [], ◌∷◌, ◌++◌, ◌==◌, string_eq,
  nat_eq, if◌then◌else◌, ltb, leb, Map, lookup, insert, keep, map, take, is_some,
}
use monitor_backend.Base.Int.{ℤ, pos}
use monitor_backend.Protocol.{GainPayload}
use monitor_backend.Hub.{Hub}
use monitor_backend.Hub.Publishing.{publish_gain}
use monitor_backend.ExpGain.{
  Sample, UserState, zero_gain, ensure_state, roll_daily, payload, sample_retain,
}

-- A row of `exp_gain_stats`, which is keyed by the user.
pub record Stats : Type 0 where
  pub total_gained : ℤ
  pub daily_gained : ℤ
  pub daily_date : ℕ
  pub last_current_exp : Option ℤ
  pub session_id : Option String
  pub last_sampled_at : ℕ

-- A row of `exp_gain_samples`.
pub record SampleRow : Type 0 where
  pub user_id : ℕ
  pub gained : ℤ
  pub sampled_at : ℕ

pub record Tables : Type 0 where
  pub stats : Map ℕ Stats
  pub samples : List SampleRow

abbrev pub session_value : String → Option String
session_value s = if s == "" then none else some s

-- The row and the samples that `persistUser` copies under the lock.
unfoldable pub stats_of : ℕ → UserState → Stats
stats_of now s = record {
  total_gained = s.total_gained;
  daily_gained = s.daily_gained;
  daily_date = s.daily_date;
  last_current_exp = s.last_current_exp;
  session_id = session_value s.session_id;
  last_sampled_at = now;
}

unfoldable pub rows_of : ℕ → UserState → List SampleRow
rows_of user s =
    map (λ (x : Sample). record { user_id = user; gained = x.gained; sampled_at = x.at }) s.samples

abbrev pub is_other : ℕ → SampleRow → Bool
is_other user r = not (r.user_id == user)

-- The transaction of `persistUser` on the copy `s`.
unfoldable pub write_user : ℕ → UserState → ℕ → Tables → Tables
unfolding stats_of rows_of
write_user user s now t = record {
  stats = insert user (stats_of now s) t.stats;
  samples = keep (is_other user) t.samples ++ rows_of user s;
}

-- The end of `persistUser`, under the lock again.
unfoldable pub clear_dirty : ℕ → Map ℕ UserState → Map ℕ UserState
clear_dirty user states = elim (lookup user states) [
  | none ↦ states
  | some s ↦ insert user (record s { dirty = false }) states
]

pub record Persisted : Type 0 where
  pub states : Map ℕ UserState
  pub tables : Tables
  pub succeeded : Bool

-- `persistUser` when no other call changes the state while the transaction runs; `commits` is
-- whether every statement of the transaction succeeds.
unfoldable pub persist_user : ℕ → Bool → ℕ → Map ℕ UserState → Tables → Persisted
unfolding write_user clear_dirty
persist_user user commits now states t = elim (lookup user states) [
  | none ↦ record { states = states; tables = t; succeeded = false }
  | some s ↦
      if commits
      then record {
        states = clear_dirty user states;
        tables = write_user user s now t;
        succeeded = true;
      }
      else record { states = states; tables = t; succeeded = false }
]

unfoldable pub dirty_ids : Map ℕ UserState → List ℕ
dirty_ids [] = []
dirty_ids ((user, s) ∷ rest) = let ids = dirty_ids rest in if s.dirty then user ∷ ids else ids

-- The loop of `flushDirty`. `commits` says for which users the transaction succeeds.
unfoldable pub persist_all :
    List ℕ → (ℕ → Bool) → ℕ → Map ℕ UserState → Tables → Map ℕ UserState × Tables
unfolding persist_user
persist_all [] commits now states t = (states, t)
persist_all (user ∷ ids) commits now states t =
    let p = persist_user user (commits user) now states t in
    persist_all ids commits now p.states p.tables

abbrev pub is_recent : ℕ → SampleRow → Bool
is_recent now r = leb now (r.sampled_at + sample_retain)

-- `deletes` is whether the last statement succeeds.
unfoldable pub flush_dirty :
    (ℕ → Bool) → Bool → ℕ → Map ℕ UserState → Tables → Map ℕ UserState × Tables
unfolding dirty_ids persist_all
flush_dirty commits deletes now states t =
    let (states', t') = persist_all (dirty_ids states) commits now states t in
    (states', if deletes then record t' { samples = keep (is_recent now) t'.samples } else t')

abbrev pub baseline_of : Option String → Option ℤ → Map String ℤ
baseline_of (some session) (some exp) = (session, exp) ∷ []
baseline_of _ _ = []

abbrev pub or_no_session : Option String → String
or_no_session none = ""
or_no_session (some session) = session

-- The state that `loadFromDB` makes of a row.
unfoldable pub loaded : ℕ → Stats → UserState
unfolding roll_daily
loaded now r = roll_daily now (record {
  total_gained = r.total_gained;
  daily_gained = r.daily_gained;
  daily_date = r.daily_date;
  last_current_exp = r.last_current_exp;
  session_id = or_no_session r.session_id;
  session_exp = baseline_of r.session_id r.last_current_exp;
  samples = [];
  dirty = false;
  last_payload = zero_gain;
  has_payload = false;
})

unfoldable pub load_stats : ℕ → Map ℕ Stats → Map ℕ UserState → Map ℕ UserState
unfolding loaded
load_stats now [] states = states
load_stats now ((user, r) ∷ rows) states = load_stats now rows (insert user (loaded now r) states)

abbrev pub with_sample : Sample → UserState → UserState
with_sample x s = record s { samples = s.samples ++ (x ∷ []) }

abbrev pub sample_of : SampleRow → Sample
sample_of r = record { at = r.sampled_at; gained = r.gained }

unfoldable pub load_samples : ℕ → List SampleRow → Map ℕ UserState → Map ℕ UserState
load_samples now [] states = states
load_samples now (r ∷ rows) states =
    load_samples now rows
      (insert r.user_id (with_sample (sample_of r) (ensure_state r.user_id now states)) states)

-- Insertion by `sampled_at`, behind the rows of the same time.
unfoldable pub insert_row : SampleRow → List SampleRow → List SampleRow
insert_row r [] = r ∷ []
insert_row r (x ∷ xs) =
    let rest = insert_row r xs in if ltb r.sampled_at x.sampled_at then r ∷ x ∷ xs else x ∷ rest

-- `ORDER BY sampled_at ASC`.
unfoldable pub order_rows : List SampleRow → List SampleRow → List SampleRow
unfolding insert_row
order_rows sorted [] = sorted
order_rows sorted (r ∷ rows) = order_rows (insert_row r sorted) rows

-- How many rows of each query are read before an error ends the loading, if there is one: none of them
-- when the query itself fails.
pub record Loading : Type 0 where
  pub stats_end : Option ℕ
  pub samples_end : Option ℕ

abbrev pub rows_read {ℓ} : {A : Type ℓ} → Option ℕ → List A → List A
rows_read none rows = rows
rows_read (some n) rows = take n rows

-- The states that were loaded, and whether there was no error.
unfoldable pub load_from_db : Loading → ℕ → Tables → Map ℕ UserState × Bool
unfolding load_stats load_samples order_rows
load_from_db db now t =
    let with_stats = load_stats now (rows_read db.stats_end t.stats) [] in
    let samples = order_rows [] (keep (is_recent now) t.samples) in
    if is_some db.stats_end then (with_stats, false) else (
      load_samples now (rows_read db.samples_end samples) with_stats,
      not (is_some db.samples_end),
    )

pub record Reset : Type 0 where
  pub states : Map ℕ UserState
  pub tables : Tables
  pub hub : Hub
  pub result : Option GainPayload

abbrev pub reset_state : ℕ → UserState → UserState
reset_state now s =
    let s' = record (roll_daily now s) { total_gained = pos 0; dirty = true } in
    record s' { last_payload = payload now s'; has_payload = true }

-- `ResetTotal`; `none` is the error of the transaction.
unfoldable pub reset_total : ℕ → Bool → ℕ → Map ℕ UserState → Tables → Hub → Reset
unfolding roll_daily payload persist_user publish_gain
reset_total user commits now states t hub =
    let s = reset_state now (ensure_state user now states) in
    let p = persist_user user commits now (insert user s states) t in
    if not p.succeeded
    then record { states = p.states; tables = p.tables; hub = hub; result = none }
    else record {
      states = p.states;
      tables = p.tables;
      hub = if s.session_id == "" then hub else publish_gain s.session_id s.last_payload now hub;
      result = some s.last_payload;
    }
