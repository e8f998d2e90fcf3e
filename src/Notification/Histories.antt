-- ===== src/Notification/Histories.antt =====
-- Histories of an account's calls that change the notification tables.
use monitor_backend.Base.{
  ℕ, ◌≡◌, String, Bool, true, false, not, ◌&&◌, [], ◌∷◌, ◌++◌, string_eq, nat_eq, pair_eq,
  if◌then◌else◌, lookup,
}
use monitor_backend.Base.Int.{ℤ}
use monitor_backend.Base.Results.{Result, ok, err}
use monitor_backend.Notification.Settings.{Tables, save_bark, bark_configured}
use monitor_backend.Notification.Switches.{
  Switch, stall_seconds, set_exp_stalled, set_rune_alert_enabled,
  set_mouse_follow_verification_enabled, set_zone_breach_enabled, muted, mute_changes,
  set_urgent_alerts_muted,
}
use monitor_backend.Notification.Deliveries.{Attempt, send_test, send_critical_test}
use monitor_backend.Notification.Deliveries.{
  push_to, record_delivery, delivery_of, good_volume, send_test_as, device_key, is_frequent,
  last_attempt,
}
use monitor_backend.Notification.Guards.{
  Guarded, kept-Guarded, stalled-Guarded, muted-Guarded, save_bark-Guarded,
}

state_if {ℓ κ μ} :
    {S : Type ℓ} {R : Type κ} (P : S → Type μ) (b : Bool) (x y : S × R)
    → P x.0
    → P y.0
    → P (if b then x else y).0
state_if P true x y p q = p
state_if P false x y p q = q

abbrev mute_answer : Bool → Bool → Tables → Tables → Tables × Result (Unit {0})
mute_answer a b t after =
    if a
    then (t, err "storage_error")
    else if b
    then (after, err "Bark DeviceKey 尚未配置")
    else (after, ok tt)

answered-Guarded :
    (a b : Bool) (t after : Tables)
    → Guarded t
    → Guarded after
    → Guarded (mute_answer a b t after).0
answered-Guarded true b t after g h = g
answered-Guarded false true t after g h = h
answered-Guarded false false t after g h = h

set_urgent-Guarded :
    (db : Switch) (user : ℕ) (flag : Bool) (t : Tables)
    → Guarded t
    → Guarded (set_urgent_alerts_muted db user flag t).0
unfolding set_urgent_alerts_muted
set_urgent-Guarded db user flag t g =
    answered-Guarded (not db.writes)
      (not (mute_changes flag (lookup user t.channels))
        && not (bark_configured db.selects user (muted user flag (lookup user t.channels) t)))
      t (muted user flag (lookup user t.channels) t) g
      (muted-Guarded user flag (lookup user t.channels) t g)

pushed-Guarded :
    (push : String → Result (Unit {0})) (a : Attempt) (user : ℕ) (event : String) (t : Tables)
    → (r : Result String) → Guarded t
    → Guarded (push_to push a user event t r).0
unfolding record_delivery
pushed-Guarded push a user event t (err why) g = g
pushed-Guarded push a user event t (ok key) g = go a.records
  where
    go :
        (b : Bool)
        → Guarded (
            if b
            then record t {
              deliveries = t.deliveries ++ (delivery_of user event a.recorded_at (push key) ∷ []);
            }
            else t)
    go true = g
    go false = g

send_test-Guarded :
    (decrypt : String → Result String) (push : String → Result (Unit {0})) (a : Attempt) (user : ℕ)
    → (event : String) (t : Tables) → Guarded t
    → Guarded (send_test_as decrypt push a user event t).0
unfolding send_test_as
send_test-Guarded decrypt push a user event t g =
    state_if (λ (x : Tables). Guarded x)
      (a.reads_last && is_frequent (last_attempt user event t.deliveries) a.now)
      (t, err "测试通知发送过于频繁，请稍后再试")
      (push_to push a user event t (device_key decrypt a.selects_key user t)) g
      (pushed-Guarded push a user event t (device_key decrypt a.selects_key user t) g)

-- One call, with what its statements and the libraries answer.
pub data Step (t : Tables) : Tables → Type 0 where
  saves :
      (key_ok : String → Result (Unit {0})) (seal : String → Result String) (commits : Bool)
      → (user : ℕ) (raw : String) (after : Tables)
      → save_bark key_ok seal commits user raw t ≡ ok after
      → Step t after
  sets_exp_stalled :
      (db : Switch) (user : ℕ) (enabled : Bool) (seconds : ℤ)
      → Step t (set_exp_stalled db user enabled seconds t).0
  sets_rune_alert :
      (db : Switch) (user : ℕ) (enabled : Bool)
      → Step t (set_rune_alert_enabled db user enabled t).0
  sets_mouse_follow :
      (db : Switch) (user : ℕ) (enabled : Bool)
      → Step t (set_mouse_follow_verification_enabled db user enabled t).0
  sets_zone_breach :
      (db : Switch) (user : ℕ) (enabled : Bool)
      → Step t (set_zone_breach_enabled db user enabled t).0
  mutes : (db : Switch) (user : ℕ) (flag : Bool) → Step t (set_urgent_alerts_muted db user flag t).0
  tests :
      (decrypt : String → Result String) (push : String → Result (Unit {0})) (a : Attempt)
      → (user : ℕ) → Step t (send_test decrypt push a user t).0
  tests_critical :
      (decrypt : String → Result String) (push : ℤ → String → Result (Unit {0})) (a : Attempt)
      → (user : ℕ) (volume : ℤ) → Step t (send_critical_test decrypt push a user volume t).0

pub data Reach (t : Tables) : Tables → Type 0 where
  here : Reach t t
  next : (u v : Tables) → Reach t u → Step u v → Reach t v

Step-Guarded : (t u : Tables) → Step t u → Guarded t → Guarded u
unfolding set_exp_stalled set_rune_alert_enabled set_mouse_follow_verification_enabled
    set_zone_breach_enabled send_test send_critical_test
Step-Guarded t _ (Step.saves key_ok seal commits user raw after e) g =
    save_bark-Guarded key_ok seal commits user raw t after g e
Step-Guarded t _ (Step.sets_exp_stalled db user enabled seconds) g =
    stalled-Guarded db user enabled (stall_seconds seconds) t g
Step-Guarded t _ (Step.sets_rune_alert db user enabled) g =
    kept-Guarded db user "rune_alert" enabled _ t g
Step-Guarded t _ (Step.sets_mouse_follow db user enabled) g =
    kept-Guarded db user "mouse_follow_verification" enabled _ t g
Step-Guarded t _ (Step.sets_zone_breach db user enabled) g =
    kept-Guarded db user "zone_breach" enabled _ t g
Step-Guarded t _ (Step.mutes db user flag) g = set_urgent-Guarded db user flag t g
Step-Guarded t _ (Step.tests decrypt push a user) g =
    send_test-Guarded decrypt push a user "test" t g
Step-Guarded t _ (Step.tests_critical decrypt push a user volume) g =
    state_if (λ (x : Tables). Guarded x) (not (good_volume volume)) (t, err "紧急通知音量须为 0–10")
      (send_test_as decrypt (push volume) a user "critical_test" t) g
      (send_test-Guarded decrypt (push volume) a user "critical_test" t g)

-- From tables in which every rule that is on belongs to an account with an enabled channel, each history of
-- calls leads to such tables, whatever the statements, the Bark server and the encryption answer.
pub history-Guarded : (t u : Tables) → Guarded t → Reach t u → Guarded u
history-Guarded t _ g Reach.here = g
history-Guarded t _ g (Reach.next u v r s) = Step-Guarded u v s (history-Guarded t u g r)
