-- ===== src/ExpGain.antt =====
-- internal/expgain/service.go: experience gained, counted from the readings in the hub's rooms. Times
-- are in milliseconds, a `time.Duration` too, and a date is the number of its day in Shanghai, where
-- the clock is eight hours ahead of UTC all year. A test `t.Before(now.Add(-d))` is written with the
-- sum on the other side. `Store` has the tables; Go's map order is the order of the list.
pub mod Store
pub mod Ticking
pub mod Counting
pub mod Windows
pub mod Restarts
pub mod Flushing
pub mod Resets
mod Tests
use monitor_backend.Base.{
  ℕ, ◌+◌, ◌*◌, ◌/◌, String, Bool, true, false, not, ◌&&◌, ◌||◌, Option, none, some, List, [], ◌∷◌,
  ◌++◌, string_eq, nat_eq, if◌then◌else◌, ltb, leb, Map, lookup, insert, erase, keep,
}
use monitor_backend.Base.Int.{ℤ, pos, add64, sub64, is_pos, int_beq}
use monitor_backend.Protocol.{GainPayload, ExpPayload}
use monitor_backend.Hub.{Hub}
use monitor_backend.Hub.Watching.{latest_exp}

abbrev pub minute : ℕ
minute = 60000

abbrev pub hour : ℕ
hour = 60 * minute

abbrev pub day : ℕ
day = 24 * hour

abbrev pub window_10m : ℕ
window_10m = 10 * minute

abbrev pub window_1h : ℕ
window_1h = hour

abbrev pub sample_retain : ℕ
sample_retain = hour

abbrev pub calendar_date : ℕ → ℕ
calendar_date now = (now + 8 * hour) / day

pub record Sample : Type 0 where
  pub at : ℕ
  pub gained : ℤ

pub record UserState : Type 0 where
  pub total_gained : ℤ
  pub daily_gained : ℤ
  pub daily_date : ℕ
  pub last_current_exp : Option ℤ
  pub session_id : String
  pub session_exp : Map String ℤ
  pub samples : List Sample
  pub dirty : Bool
  pub last_payload : GainPayload
  pub has_payload : Bool

abbrev pub zero_gain : GainPayload
zero_gain = record {
  inflow10m = pos 0;
  outflow1h = pos 0;
  total_usage = pos 0;
  daily_usage = pos 0;
  sampled_at = pos 0;
}

abbrev pub new_state : ℕ → UserState
new_state now = record {
  total_gained = pos 0;
  daily_gained = pos 0;
  daily_date = calendar_date now;
  last_current_exp = none;
  session_id = "";
  session_exp = [];
  samples = [];
  dirty = false;
  last_payload = zero_gain;
  has_payload = false;
}

-- What `ensureStateLocked` returns; its caller writes the state back under the same lock.
abbrev pub state_or_new : ℕ → Option UserState → UserState
state_or_new now none = new_state now
state_or_new now (some s) = s

abbrev pub ensure_state : ℕ → ℕ → Map ℕ UserState → UserState
ensure_state user now states = state_or_new now (lookup user states)

unfoldable pub roll_daily : ℕ → UserState → UserState
roll_daily now s =
    if not (ltb s.daily_date (calendar_date now))
    then s
    else record s { daily_date = calendar_date now; daily_gained = pos 0; dirty = true }

abbrev pub is_retained : ℕ → Sample → Bool
is_retained now x = ltb now (x.at + sample_retain)

unfoldable pub prune_samples : ℕ → UserState → UserState
prune_samples now s = record s { samples = keep (is_retained now) s.samples }

-- The loop of `sumWindow`, from `total` on.
unfoldable pub sum_from : ℤ → ℕ → ℕ → List Sample → ℤ
sum_from total now window [] = total
sum_from total now window (x ∷ xs) =
    sum_from (if leb now (x.at + window) then add64 total x.gained else total) now window xs

unfoldable pub sum_window : ℕ → ℕ → List Sample → ℤ
unfolding sum_from
sum_window now window xs = sum_from (pos 0) now window xs

unfoldable pub payload : ℕ → UserState → GainPayload
payload now s = record {
  inflow10m = sum_window now window_10m s.samples;
  outflow1h = sum_window now window_1h s.samples;
  total_usage = s.total_gained;
  daily_usage = s.daily_gained;
  sampled_at = pos now;
}

unfoldable pub same_gain_values : GainPayload → GainPayload → Bool
same_gain_values a b =
    int_beq a.inflow10m b.inflow10m
    && int_beq a.outflow1h b.outflow1h
    && int_beq a.total_usage b.total_usage
    && int_beq a.daily_usage b.daily_usage

-- The current experience that `sampleSessionLocked` gets to see.
abbrev pub visible_exp : ExpPayload × Bool × Bool → Option ℤ
visible_exp (exp, online, found) = if not found || not online then none else exp.current_exp

abbrev pub gain_by : ℤ → ℕ → UserState → UserState
gain_by delta now s = if not (is_pos delta) then s else record s {
  total_gained = add64 s.total_gained delta;
  daily_gained = add64 s.daily_gained delta;
  samples = s.samples ++ (record { at = now; gained = delta } ∷ []);
  dirty = true;
}

abbrev pub compare_with : Option ℤ → ℤ → ℕ → UserState → UserState
compare_with none current now s = record s { dirty = true }
compare_with (some previous) current now s = gain_by (sub64 current previous) now s

abbrev pub with_baseline : String → ℤ → UserState → UserState
with_baseline session current s = record s {
  session_exp = insert session current s.session_exp;
  session_id = session;
  last_current_exp = some current;
}

-- The body of `sampleSessionLocked` at a reading.
unfoldable pub record_reading : String → Option ℤ → ℕ → UserState → UserState
record_reading session none now s = record s { session_exp = erase session s.session_exp }
record_reading session (some current) now s =
    compare_with (lookup session s.session_exp) current now (with_baseline session current s)

unfoldable pub sample_session : Hub → String → ℕ → UserState → UserState
unfolding record_reading
sample_session hub session now s =
    record_reading session (visible_exp (latest_exp session hub)) now s
