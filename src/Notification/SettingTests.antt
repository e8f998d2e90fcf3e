-- ===== src/Notification/SettingTests.antt =====
-- An account that binds a Bark device, sets its rules and sends a test.
use monitor_backend.Base.{
  ℕ, ◌≡◌, ◌≢◌, refl, sym, ◌∙◌, String, true, false, none, [], ◌∷◌, string_eq, nat_eq, pair_eq,
  lookup, arith,
}
use monitor_backend.Base.Int.{pos}
use monitor_backend.Base.Results.{Result, ok, err}
use monitor_backend.Notification.Settings.{Tables, settings, read_settings, save_bark}
use monitor_backend.Notification.Switches.{Switch, set_exp_stalled}
use monitor_backend.Notification.Deliveries.{Attempt, send_test}
use monitor_backend.Notification.Guards.{Guarded}
use monitor_backend.Notification.Histories.{Step, Reach, history-Guarded}
use monitor_backend.Notification.Pauses.{Paused, Recorded, send_test-Paused}
use monitor_backend.Notification.Readback.{settings-set_exp_stalled}

abbrev empty : Tables
empty = record { channels = []; rules = []; states = []; deliveries = [] }

abbrev known : String → Result (Unit {0})
known key = ok tt

abbrev seal : String → Result String
seal key = ok key

abbrev bound : Tables
bound = record empty {
  channels =
      (
        7,
        record { secret_ciphertext = "device_key-1"; enabled = true; urgent_alerts_muted = false },
      )
      ∷ [];
  rules =
      (
        (7, "mouse_follow_verification"),
        record { enabled = true; interval_seconds = 2; last_sent_at = none },
      )
      ∷ [];
}

binds : save_bark known seal true 7 " device_key-1 " empty ≡ ok bound
unfolding save_bark
binds = refl

empty-Guarded : Guarded empty
unfolding lookup
empty-Guarded user rule = refl

history-Guarded_example : Guarded bound
history-Guarded_example =
    history-Guarded empty bound empty-Guarded (
      Reach.next empty bound Reach.here (Step.saves known seal true 7 " device_key-1 " bound binds))

abbrev healthy : Switch
healthy = record { selects = true; writes = true; clears = true }

abbrev stalling : Tables
stalling = (set_exp_stalled healthy 7 true (pos 90) bound).0

sets : set_exp_stalled healthy 7 true (pos 90) bound ≡ (stalling, ok tt)
unfolding set_exp_stalled
sets = refl

users-ne : ◌≢◌ {A = ℕ} 7 8
users-ne = ground arith

settings-set_exp_stalled_example :
    (settings true 7 stalling
      ≡ ok
          (record (read_settings 7 bound) { exp_stalled_enabled = true; exp_stalled_seconds = 90 }))
    × (settings true 8 stalling ≡ settings true 8 bound)
settings-set_exp_stalled_example =
    settings-set_exp_stalled healthy 7 8 90 true bound stalling users-ne sets

abbrev decrypt : String → Result String
decrypt secret = ok secret

abbrev attempt : ℕ → Attempt
attempt at = record {
  reads_last = true;
  selects_key = true;
  records = true;
  now = at;
  recorded_at = at;
}

abbrev tested : Tables
tested = (send_test decrypt known (attempt 1000) 7 bound).0

too_early : (send_test decrypt known (attempt 10999) 7 tested).1 ≡ err "测试通知发送过于频繁，请稍后再试"
unfolding send_test
too_early = refl

is_sent : (send_test decrypt known (attempt 11000) 7 tested).1 ≡ ok tt
unfolding send_test
is_sent = refl

ok_ne : (why : String) → ◌≢◌ {A = Result (Unit {0})} (ok tt) (err why)
ok_ne why e = cc

send_test-Paused_example :
    Paused 7 "test" 11000 tested.deliveries
    × Recorded 11000 tested.deliveries
        (send_test decrypt known (attempt 11000) 7 tested).0.deliveries
send_test-Paused_example =
    send_test-Paused decrypt known (attempt 11000) 7 tested refl
      (λ e. ok_ne "测试通知发送过于频繁，请稍后再试" (sym is_sent ∙ e))
