-- ===== src/Notification/Switches.antt =====
-- The switches of the rules.
use monitor_backend.Base.{
  ℕ, String, Bool, true, false, not, ◌&&◌, ◌||◌, Option, none, some, string_eq, nat_eq, pair_eq,
  if◌then◌else◌, lookup, insert, erase, ltb,
}
use monitor_backend.Base.Int.{ℤ, pos, negsuc}
use monitor_backend.Base.Results.{Result, ok, err, ◌>>◌, refuse_if}
use monitor_backend.Notification.{min_stall_seconds, max_stall_seconds}
use monitor_backend.Notification.Settings.{
  Channel, Tables, bark_configured, write_rule, rune_alert_interval, mouse_follow_interval,
  zone_breach_interval,
}

-- Whether the query of the channel, the write of the rule and the delete of its state succeed.
pub record Switch : Type 0 where
  pub selects : Bool
  pub writes : Bool
  pub clears : Bool

abbrev pub stall_seconds : ℤ → Option ℕ
stall_seconds (pos n) = if ltb n min_stall_seconds || ltb max_stall_seconds n then none else some n
stall_seconds (negsuc n) = none

-- The check and the write that the switches of the four rules share.
abbrev pub switch_rule : Switch → ℕ → String → Bool → ℕ → Tables → Result Tables
switch_rule db user rule enabled seconds t = do
  refuse_if (enabled && not (bark_configured db.selects user t)) "Bark DeviceKey 尚未配置"
  refuse_if (not db.writes) "storage_error"
  ok (write_rule user rule enabled seconds t)

abbrev pub keeping : Tables → Result Tables → Tables × Result (Unit {0})
keeping t (err why) = (t, err why)
keeping t (ok after) = (after, ok tt)

-- The state of the stall tracking goes when the rule is written.
abbrev pub clear_state : Bool → ℕ → Tables → Tables × Result (Unit {0})
clear_state false user t = (t, err "storage_error")
clear_state true user t = (record t { states = erase user t.states }, ok tt)

abbrev pub clearing : Switch → ℕ → Tables → Result Tables → Tables × Result (Unit {0})
clearing db user t (err why) = (t, err why)
clearing db user t (ok after) = clear_state db.clears user after

abbrev pub stalled_for : Switch → ℕ → Bool → Option ℕ → Tables → Tables × Result (Unit {0})
stalled_for db user enabled none t = (t, err "经验停滞秒数必须在 10–86400 之间")
stalled_for db user enabled (some n) t =
    clearing db user t (switch_rule db user "exp_stalled" enabled n t)

unfoldable pub set_exp_stalled : Switch → ℕ → Bool → ℤ → Tables → Tables × Result (Unit {0})
unfolding bark_configured lookup insert erase
set_exp_stalled db user enabled seconds t = stalled_for db user enabled (stall_seconds seconds) t

unfoldable pub set_rune_alert_enabled : Switch → ℕ → Bool → Tables → Tables × Result (Unit {0})
unfolding bark_configured lookup insert
set_rune_alert_enabled db user enabled t =
    keeping t (switch_rule db user "rune_alert" enabled rune_alert_interval t)

unfoldable pub set_mouse_follow_verification_enabled :
    Switch → ℕ → Bool → Tables → Tables × Result (Unit {0})
unfolding bark_configured lookup insert
set_mouse_follow_verification_enabled db user enabled t =
    keeping t (switch_rule db user "mouse_follow_verification" enabled mouse_follow_interval t)

unfoldable pub set_zone_breach_enabled : Switch → ℕ → Bool → Tables → Tables × Result (Unit {0})
unfolding bark_configured lookup insert
set_zone_breach_enabled db user enabled t =
    keeping t (switch_rule db user "zone_breach" enabled zone_breach_interval t)

abbrev pub muted : ℕ → Bool → Option Channel → Tables → Tables
muted user flag none t = t
muted user flag (some c) t =
    if c.enabled
    then record t { channels = insert user (record c { urgent_alerts_muted = flag }) t.channels }
    else t

-- Whether the update changes a row: the channel is on, and the flag is another.
abbrev pub mute_changes : Bool → Option Channel → Bool
mute_changes flag none = false
mute_changes flag (some c) =
    c.enabled && not (if flag then c.urgent_alerts_muted else not c.urgent_alerts_muted)

unfoldable pub set_urgent_alerts_muted : Switch → ℕ → Bool → Tables → Tables × Result (Unit {0})
unfolding bark_configured lookup insert
set_urgent_alerts_muted db user flag t =
    let channel = lookup user t.channels in
    let after = muted user flag channel t in
    if not db.writes
    then (t, err "storage_error")
    else if not (mute_changes flag channel) && not (bark_configured db.selects user after)
    then (after, err "Bark DeviceKey 尚未配置")
    else (after, ok tt)
