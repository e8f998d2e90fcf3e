-- ===== src/Notification/Alerts.antt =====
-- The scans of the repeated alerts. The rows come ordered by user and a user has one rule of a kind,
-- so a scan treats one rule after another; `sessions` are the ids of the user's monitoring sessions in
-- the order of the query.
use monitor_backend.Base.{
  ℕ, String, Bool, true, false, not, ◌||◌, Option, none, some, List, [], ◌∷◌, if◌then◌else◌,
  is_some,
}
use monitor_backend.Hub.{Hub}
use monitor_backend.Hub.Watching.{latest_rune, latest_verification, latest_zone}
use monitor_backend.Notification.{
  rune_alert_active, mouse_follow_verification_active, zone_breach_active, alert_notification_due,
  urgent_alert_volume,
}

pub record Rule : Type 0 where
  pub user_id : ℕ
  pub interval_seconds : ℕ
  pub last_sent_at : Option ℕ
  pub urgent_muted : Bool

pub record Push : Type 0 where
  pub user_id : ℕ
  pub volume : ℕ

abbrev pub current {ℓ} : {A : Type ℓ} → (A → ℕ → Bool) → ℕ → A × Bool × Bool → Bool
current is_active now (p, online, found) =
    if not found || not online then false else is_active p now

-- Whether any of the sessions has a current report; without sessions the query gives the id "".
unfoldable pub any_active : (String → Bool) → List String → Bool
any_active active [] = false
any_active active (id ∷ ids) = if active id then true else any_active active ids

abbrev pub or_blank : List String → List String
or_blank [] = "" ∷ []
or_blank (id ∷ ids) = id ∷ ids

-- Which statements of a scan succeed, and the database's time at the reservation.
pub record Scan : Type 0 where
  pub stores : Bool
  pub resets : Bool
  pub sent_at : ℕ

-- `resetAlertCycle`.
unfoldable pub reset_alert_cycle : Bool → Rule → Rule
reset_alert_cycle resets r = if resets then record r { last_sent_at = none } else r

-- One rule of a scan that closes cycles: the rune and the verification alerts.
unfoldable pub scan_urgent : Scan → Bool → ℕ → Rule → Rule × List Push
unfolding reset_alert_cycle
scan_urgent db active now r =
    if not active
    then (reset_alert_cycle db.resets r, [])
    else if not (alert_notification_due r.last_sent_at r.interval_seconds now 0) || not db.stores
    then (r, [])
    else (
      record r { last_sent_at = some db.sent_at },
      record {
        user_id = r.user_id;
        volume = urgent_alert_volume (not (is_some r.last_sent_at)) r.urgent_muted;
      }
          ∷ [],
    )

unfoldable pub process_due_rune_alert : Scan → Hub → List String → ℕ → Rule → Rule × List Push
unfolding scan_urgent any_active rune_alert_active latest_rune
process_due_rune_alert db hub sessions now r =
    scan_urgent db
      (any_active (λ id. current rune_alert_active now (latest_rune id hub)) (or_blank sessions))
      now r

unfoldable pub process_due_mouse_follow_verification :
    Scan → Hub → List String → ℕ → Rule → Rule × List Push
unfolding scan_urgent any_active mouse_follow_verification_active latest_verification
process_due_mouse_follow_verification db hub sessions now r =
    scan_urgent db
      (any_active (λ id. current mouse_follow_verification_active now (latest_verification id hub))
        (or_blank sessions))
      now r

abbrev pub schedule_slack : ℕ
schedule_slack = 200

-- The zone alert, whose query takes the rules that are due, and which is pushed without a volume.
unfoldable pub process_due_zone_breach : Scan → Hub → List String → ℕ → Rule → Rule × List ℕ
unfolding any_active zone_breach_active latest_zone alert_notification_due
process_due_zone_breach db hub sessions now r =
    if not (alert_notification_due r.last_sent_at r.interval_seconds now schedule_slack)
      || not (any_active (λ id. current zone_breach_active now (latest_zone id hub)) sessions)
      || not db.stores
    then (r, [])
    else (record r { last_sent_at = some db.sent_at }, r.user_id ∷ [])
