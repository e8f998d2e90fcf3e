-- ===== src/Notification.antt =====
-- internal/notification/service.go: when a rule of an account sends a notification. Times are in
-- milliseconds, and a test `now.Sub(t) >= d` is written with the sum on the other side. `Stalls` has
-- the tracking of experience that does not grow, `Alerts` the repeated alerts.
pub mod Stalls
pub mod Settings
pub mod Switches
pub mod Deliveries
pub mod Guards
pub mod Histories
pub mod Readback
pub mod Pauses
pub mod Alerts
pub mod Truth
pub mod Cycles
mod Tests
mod SettingTests
use monitor_backend.Base.{
  ℕ, ◌+◌, ◌*◌, Bool, true, false, not, ◌&&◌, ◌||◌, Option, none, some, if◌then◌else◌, ltb, leb,
}
use monitor_backend.Base.Int.{ℤ, pos, negsuc, is_pos}
use monitor_backend.Protocol.{RunePayload, VerificationPayload, ZonePayload}

abbrev pub second : ℕ
second = 1000

abbrev pub default_stall_seconds : ℕ
default_stall_seconds = 120

abbrev pub min_stall_seconds : ℕ
min_stall_seconds = 10

abbrev pub max_stall_seconds : ℕ
max_stall_seconds = 86400

abbrev pub freshness_window : ℕ
freshness_window = 12 * second

unfoldable pub normalize_stall_seconds : ℕ → ℕ
normalize_stall_seconds value =
    if ltb value min_stall_seconds || ltb max_stall_seconds value
    then default_stall_seconds
    else value

abbrev pub notified_before : Option ℕ → ℕ → ℕ → Bool
notified_before none threshold now = true
notified_before (some t) threshold now = leb (t + threshold) now

unfoldable pub stall_notification_due : ℕ → Option ℕ → ℕ → ℕ → Bool
stall_notification_due last_changed last_notification threshold now =
    if ltb now (last_changed + threshold)
    then false
    else notified_before last_notification threshold now

-- The report is positive, and at most the freshness window away from now on either side.
abbrev pub is_fresh : ℤ → ℕ → Bool
is_fresh (pos t) now = ltb 0 t && (leb t (now + freshness_window) && leb now (t + freshness_window))
is_fresh (negsuc n) now = false

unfoldable pub rune_alert_active : RunePayload → ℕ → Bool
rune_alert_active p now = if not p.detected then false else is_fresh p.detected_at now

unfoldable pub mouse_follow_verification_active : VerificationPayload → ℕ → Bool
mouse_follow_verification_active p now =
    if not p.detected then false else is_fresh p.detected_at now

unfoldable pub zone_breach_active : ZonePayload → ℕ → Bool
zone_breach_active p now = if not p.outside then false else is_fresh p.detected_at now

unfoldable pub alert_notification_due : Option ℕ → ℕ → ℕ → ℕ → Bool
alert_notification_due none interval_seconds now slack = true
alert_notification_due (some t) interval_seconds now slack =
    leb (t + interval_seconds * second) (now + slack)

unfoldable pub urgent_alert_volume : Bool → Bool → ℕ
urgent_alert_volume first_in_cycle muted = if first_in_cycle && not muted then 4 else 0
