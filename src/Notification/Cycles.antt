-- ===== src/Notification/Cycles.antt =====
-- The urgent alerts of a cycle: the scans in which the alert stays active.
use monitor_backend.Base.{
  ℕ, ◌+◌, ◌*◌, ◌≤◌, ◌≡◌, refl, Bool, true, false, not, is_some, Option, none, some, List, [], ◌∷◌,
  ◌++◌, if◌then◌else◌, arith, Bool-cases, inl, inr,
}
use monitor_backend.Notification.{alert_notification_due, urgent_alert_volume, second}
use monitor_backend.Notification.Alerts.{Rule, Push, Scan, scan_urgent}

-- A push with the time of its scan and the database's time, which is recorded.
abbrev pub stamped : ℕ → ℕ → List Push → List (ℕ × ℕ × ℕ)
stamped now sent_at [] = []
stamped now sent_at (p ∷ ps) = (now, sent_at, p.volume) ∷ stamped now sent_at ps

-- Scans at the given times, each with which of its statements succeed; the pushes with their times.
unfoldable pub scans : List (ℕ × Scan) → Rule → List (ℕ × ℕ × ℕ)
scans [] r = []
scans ((now, db) ∷ rest) r =
    let (r', pushes) = scan_urgent db true now r in stamped now db.sent_at pushes ++ scans rest r'

-- Pushes after the last one recorded at `o`: the first of a cycle has the volume 4 unless the account is
-- muted, every other is silent, and its scan is at least the interval after the recorded time of the last.
abbrev pub Paced : Bool → ℕ → Option ℕ → List (ℕ × ℕ × ℕ) → Type 0
Paced muted interval o [] = Unit
Paced muted interval none ((t, recorded, volume) ∷ ps) =
    (volume ≡ (if muted then 0 else 4)) × Paced muted interval (some recorded) ps
Paced muted interval (some s) ((t, recorded, volume) ∷ ps) =
    (s + interval ≤ t) × (volume ≡ 0) × Paced muted interval (some recorded) ps

muted_volume : (muted : Bool) → urgent_alert_volume true muted ≡ (if muted then 0 else 4)
unfolding urgent_alert_volume
muted_volume true = refl
muted_volume false = refl

silent_volume : (muted : Bool) → urgent_alert_volume false muted ≡ 0
unfolding urgent_alert_volume
silent_volume muted = refl

due_after :
    (t interval now : ℕ)
    → alert_notification_due (some t) interval now 0 ≡ true
    → t + interval * second ≤ now
unfolding alert_notification_due
due_after t interval now d = ground arith

-- In the scans of an uninterrupted cycle, with whatever failures of the database, at most the first
-- push is loud, namely if the cycle had none before and the account is not muted, and the scan of each push
-- is at least the rule's interval after the time that the database recorded for the last one.
pub scans-Paced :
    (user interval : ℕ) (o : Option ℕ) (muted : Bool) (xs : List (ℕ × Scan))
    → let rule : Rule = record {
      user_id = user;
      interval_seconds = interval;
      last_sent_at = o;
      urgent_muted = muted;
    } in
      Paced muted (interval * second) o (scans xs rule)
unfolding scans scan_urgent
scans-Paced user interval o muted [] = tt
scans-Paced user interval o muted ((now, db) ∷ xs) =
    elim (Bool-cases (alert_notification_due o interval now 0)) [
      | inr n ↦ rw n (scans-Paced user interval o muted xs)
      | inl d ↦ elim (Bool-cases db.stores) [
        | inr f ↦ rw (d, f) (scans-Paced user interval o muted xs)
        | inl t ↦ rw (d, t) (paced (scans-Paced user interval (some db.sent_at) muted xs) o d)
      ]
    ]
  where
    later : List (ℕ × ℕ × ℕ)
    later = scans xs (record {
      user_id = user;
      interval_seconds = interval;
      last_sent_at = some db.sent_at;
      urgent_muted = muted;
    })

    paced :
        Paced muted (interval * second) (some db.sent_at) later
        → (o : Option ℕ) → alert_notification_due o interval now 0 ≡ true
        → Paced muted
            (interval * second)
            o
            ((now, db.sent_at, urgent_alert_volume (not (is_some o)) muted) ∷ later)
    paced rest none d = (muted_volume muted, rest)
    paced rest (some t) d = (due_after t interval now d, silent_volume muted, rest)
