-- ===== src/ExpGain/Ticking.antt =====
-- `tick`, `Snapshot` and the query of `activeSessions`.
use monitor_backend.Base.{
  ℕ, String, Bool, true, not, ◌&&◌, ◌||◌, Option, none, some, List, [], ◌∷◌, ◌++◌, ◌==◌, string_eq,
  nat_eq, if◌then◌else◌, ltb, is_some, Map, lookup, insert, map_values, keep, map,
}
use monitor_backend.Protocol.{GainPayload}
use monitor_backend.Hub.{Hub}
use monitor_backend.Hub.Publishing.{publish_gain}
use monitor_backend.ExpGain.{
  UserState, ensure_state, roll_daily, prune_samples, payload, same_gain_values, sample_session,
  calendar_date,
}

-- The columns of `monitor_sessions` that the query reads.
pub record SessionRow : Type 0 where
  pub id : String
  pub user_id : ℕ
  pub status : ℕ
  pub client_id : Option ℕ
  pub mode : String
  pub running : Bool

pub record ActiveSession : Type 0 where
  pub user_id : ℕ
  pub session_id : String

abbrev is_active : SessionRow → Bool
is_active r = r.status == 1 && is_some r.client_id && r.mode == "monitor" && r.running

unfoldable pub active_sessions : List SessionRow → List ActiveSession
active_sessions rows =
    map (λ (r : SessionRow). record { user_id = r.user_id; session_id = r.id })
      (keep is_active rows)

pub record Service : Type 0 where
  pub states : Map ℕ UserState
  pub hub : Hub

abbrev or_none_yet : Option (List String) → List String
or_none_yet none = []
or_none_yet (some ids) = ids

unfoldable pub sessions_by_user : Map ℕ (List String) → List ActiveSession → Map ℕ (List String)
sessions_by_user m [] = m
sessions_by_user m (a ∷ rest) =
    sessions_by_user (insert a.user_id (or_none_yet (lookup a.user_id m) ++ (a.session_id ∷ [])) m)
      rest

unfoldable pub sample_sessions : Hub → List String → ℕ → UserState → UserState
unfolding sample_session
sample_sessions hub [] now s = s
sample_sessions hub (id ∷ ids) now s = sample_sessions hub ids now (sample_session hub id now s)

-- The state of a user after the readings of a tick, before its payload is compared.
unfoldable pub sampled : Hub → List String → ℕ → UserState → UserState
unfolding roll_daily sample_sessions prune_samples
sampled hub ids now s = prune_samples now (sample_sessions hub ids now (roll_daily now s))

pub record Touched : Type 0 where
  pub session_id : String
  pub payload : GainPayload

abbrev pub announce : List String → ℕ → UserState → UserState × List Touched
announce ids now s =
    let p = payload now s in
    if not s.has_payload || not (same_gain_values p s.last_payload)
    then (
      record s { last_payload = p; has_payload = true },
      map (λ id. record { session_id = id; payload = p }) ids,
    )
    else (s, [])

-- The loop over the users with active sessions.
unfoldable pub visit_users :
    Hub → ℕ → Map ℕ (List String) → Map ℕ UserState → Map ℕ UserState × List Touched
unfolding sampled payload same_gain_values
visit_users hub now [] states = (states, [])
visit_users hub now ((user, ids) ∷ rest) states =
    let (s, touched) = announce ids now (sampled hub ids now (ensure_state user now states)) in
    let (states', more) = visit_users hub now rest (insert user s states) in
    (states', touched ++ more)

abbrev pub roll_if_old : ℕ → UserState → UserState
roll_if_old now s = if ltb s.daily_date (calendar_date now) then roll_daily now s else s

unfoldable pub publish_all : List Touched → ℕ → Hub → Hub
unfolding publish_gain
publish_all [] now hub = hub
publish_all (t ∷ ts) now hub = publish_all ts now (publish_gain t.session_id t.payload now hub)

-- `none`: the query failed, and the tick does nothing.
unfoldable pub tick : ℕ → Option (List SessionRow) → Service → Service
unfolding active_sessions sessions_by_user visit_users publish_all
tick now none v = v
tick now (some rows) v =
    let (states, touched) =
      visit_users v.hub now (sessions_by_user [] (active_sessions rows)) v.states in
    record { states = map_values (roll_if_old now) states; hub = publish_all touched now v.hub }

-- `Snapshot` also keeps the state that it rolled and pruned.
unfoldable pub snapshot : ℕ → ℕ → Map ℕ UserState → Map ℕ UserState × GainPayload
unfolding roll_daily prune_samples payload
snapshot user now states =
    let s = prune_samples now (roll_daily now (ensure_state user now states)) in
    (insert user s states, payload now s)
