-- ===== src/Notification/Tests.antt =====
-- Stalls and alerts at concrete times.
use monitor_backend.Base.{
  ℕ, ◌≡◌, refl, Bool, true, false, none, List, [], ◌∷◌, string_eq, nat_eq, lookup, insert, ◌*◌,
}
use monitor_backend.Base.Int.{pos}
use monitor_backend.Notification.{second, alert_notification_due, urgent_alert_volume}
use monitor_backend.Notification.Stalls.{reserve_exp_stall_notification}
use monitor_backend.Notification.Alerts.{Rule, Scan, scan_urgent}
use monitor_backend.Notification.Truth.{Reading, tracked, Found, stall_message_is_true}
use monitor_backend.Notification.Cycles.{Paced, scans, scans-Paced}

abbrev reading : ℕ → Reading
reading t = record { selects = true; writes = true; session = "a"; exp = pos 900; at = t }

-- The latest reading first: a stall of 120 seconds, twice.
abbrev stalled : List Reading
stalled = reading 121000 ∷ reading 60000 ∷ reading 1000 ∷ []

second_is_due :
    (reserve_exp_stall_notification true true 7 "a"
      (pos 900)
      120000
      241500
      (tracked 7 120000 stalled)).due
    ≡ true
unfolding tracked reserve_exp_stall_notification lookup insert
second_is_due = refl

second_count :
    (reserve_exp_stall_notification true true 7 "a"
      (pos 900)
      120000
      241500
      (tracked 7 120000 stalled)).count
    ≡ 2
unfolding tracked reserve_exp_stall_notification lookup insert
second_count = refl

stall_message_is_true_example :
    Found "a"
      (pos 900)
      120000
      241500
      (reserve_exp_stall_notification true true 7 "a"
        (pos 900)
        120000
        241500
        (tracked 7 120000 stalled)).count
      (lookup 7 (tracked 7 120000 stalled))
stall_message_is_true_example =
    stall_message_is_true 7 120000 stalled (reading 241500) second_is_due

abbrev scan_at : Bool → ℕ → Scan
scan_at stores sent_at = record { stores = stores; resets = true; sent_at = sent_at }

abbrev times : List (ℕ × Scan)
times =
    (1000, scan_at true 1001)
    ∷ (2000, scan_at true 2001)
    ∷ (6500, scan_at false 6501)
    ∷ (7000, scan_at true 7001)
    ∷ []

abbrev rune_rule : Rule
rune_rule = record { user_id = 7; interval_seconds = 5; last_sent_at = none; urgent_muted = false }

pushes : scans times rune_rule ≡ (1000, 1001, 4) ∷ (7000, 7001, 0) ∷ []
unfolding scans scan_urgent alert_notification_due urgent_alert_volume
pushes = refl

scans-Paced_example : Paced false (5 * second) none (scans times rune_rule)
scans-Paced_example = scans-Paced 7 5 none false times
