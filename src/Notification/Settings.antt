-- ===== src/Notification/Settings.antt =====
-- The settings of an account: the channel to its Bark device, and its rules. `key_ok` and `seal` are the
-- answer of the Bark server for a device key and the encryption of the key.
use Prim.Native.String.{count}
use Prim.Native.Char.{Char, code}
use monitor_backend.Base.{
  ℕ, String, Bool, true, false, not, ◌&&◌, ◌||◌, Option, none, some, List, Map, ◌==◌, string_eq,
  nat_eq, pair_eq, if◌then◌else◌, lookup, insert, ltb,
}
use monitor_backend.Base.Results.{Result, ok, err, ◌>>=◌, ◌>>◌, refuse_if}
use monitor_backend.Base.Texts.{trim_space, every, is_digit, is_upper, is_lower}
use monitor_backend.Notification.{default_stall_seconds, normalize_stall_seconds}
use monitor_backend.Notification.Stalls.{RuleState}

-- `notification_channels`, whose only provider is "bark", so the user is the key.
pub record Channel : Type 0 where
  pub secret_ciphertext : String
  pub enabled : Bool
  pub urgent_alerts_muted : Bool

-- `notification_rules`, with the user and the rule's name for a key.
pub record StoredRule : Type 0 where
  pub enabled : Bool
  pub interval_seconds : ℕ
  pub last_sent_at : Option ℕ

-- `notification_deliveries`.
pub record Delivery : Type 0 where
  pub user_id : ℕ
  pub event_type : String
  pub status : String
  pub error_message : Option String
  pub created_at : ℕ

-- The states of `notification_rule_states` are those of the rule "exp_stalled".
pub record Tables : Type 0 where
  pub channels : Map ℕ Channel
  pub rules : Map (ℕ × String) StoredRule
  pub states : Map ℕ RuleState
  pub deliveries : List Delivery

pub record Settings : Type 0 where
  pub configured : Bool
  pub urgent_alerts_muted : Bool
  pub exp_stalled_enabled : Bool
  pub exp_stalled_seconds : ℕ
  pub rune_alert_enabled : Bool
  pub rune_alert_interval_seconds : ℕ
  pub mouse_follow_verification_enabled : Bool
  pub mouse_follow_verification_interval_seconds : ℕ
  pub zone_breach_enabled : Bool
  pub zone_breach_interval_seconds : ℕ

abbrev pub rune_alert_interval : ℕ
rune_alert_interval = 5

abbrev pub mouse_follow_interval : ℕ
mouse_follow_interval = 2

abbrev pub zone_breach_interval : ℕ
zone_breach_interval = 5

abbrev pub channel_enabled : Option Channel → Bool
channel_enabled none = false
channel_enabled (some c) = c.enabled

abbrev pub channel_muted : Option Channel → Bool
channel_muted none = false
channel_muted (some c) = c.urgent_alerts_muted

abbrev pub rule_enabled : Option StoredRule → Bool
rule_enabled none = false
rule_enabled (some r) = r.enabled

abbrev pub rule_seconds : Option StoredRule → ℕ
rule_seconds none = default_stall_seconds
rule_seconds (some r) = normalize_stall_seconds r.interval_seconds

unfoldable pub read_settings : ℕ → Tables → Settings
unfolding lookup
read_settings user t = record {
  configured = channel_enabled (lookup user t.channels);
  urgent_alerts_muted = channel_muted (lookup user t.channels);
  exp_stalled_enabled = rule_enabled (lookup (user, "exp_stalled") t.rules);
  exp_stalled_seconds = rule_seconds (lookup (user, "exp_stalled") t.rules);
  rune_alert_enabled = rule_enabled (lookup (user, "rune_alert") t.rules);
  rune_alert_interval_seconds = rune_alert_interval;
  mouse_follow_verification_enabled =
      rule_enabled (lookup (user, "mouse_follow_verification") t.rules);
  mouse_follow_verification_interval_seconds = mouse_follow_interval;
  zone_breach_enabled = rule_enabled (lookup (user, "zone_breach") t.rules);
  zone_breach_interval_seconds = zone_breach_interval;
}

-- `selects` is whether the two queries succeed.
unfoldable pub settings : Bool → ℕ → Tables → Result Settings
unfolding read_settings
settings selects user t = if not selects then err "storage_error" else ok (read_settings user t)

-- `^[A-Za-z0-9_-]{8,128}$`.
abbrev pub is_key_char : Char → Bool
is_key_char c = is_upper c || is_lower c || is_digit c || code c == 95 || code c == 45

unfoldable pub is_device_key : String → Bool
unfolding every
is_device_key key = not (ltb (count key) 8 || ltb 128 (count key)) && every is_key_char key

abbrev pub bound_channel : String → Option Channel → Channel
bound_channel secret none = record {
  secret_ciphertext = secret;
  enabled = true;
  urgent_alerts_muted = false;
}
bound_channel secret (some c) = record c { secret_ciphertext = secret; enabled = true }

-- The rule is on from the start; one that the user has keeps whether it is on.
abbrev pub bound_rule : Option StoredRule → StoredRule
bound_rule none = record {
  enabled = true;
  interval_seconds = mouse_follow_interval;
  last_sent_at = none;
}
bound_rule (some r) = record r { interval_seconds = mouse_follow_interval }

abbrev pub bind_channel : ℕ → String → Tables → Tables
bind_channel user secret t = record t {
  channels = insert user (bound_channel secret (lookup user t.channels)) t.channels;
  rules =
      insert (user, "mouse_follow_verification")
        (bound_rule (lookup (user, "mouse_follow_verification") t.rules)) t.rules;
}

-- `commits` is whether the transaction succeeds.
unfoldable pub save_bark :
    (String → Result (Unit {0}))
    → (String → Result String)
    → Bool
    → ℕ
    → String
    → Tables
    → Result Tables
unfolding trim_space is_device_key lookup insert
save_bark key_ok seal commits user raw t = do
  let key = trim_space raw
  refuse_if (not (is_device_key key)) "invalid Bark DeviceKey"
  key_ok key
  secret ← seal key
  refuse_if (not commits) "storage_error"
  ok (bind_channel user secret t)

unfoldable pub bark_configured : Bool → ℕ → Tables → Bool
unfolding lookup
bark_configured selects user t = selects && channel_enabled (lookup user t.channels)

-- A rule that is switched on may send at once.
abbrev pub switched : Bool → ℕ → Option StoredRule → StoredRule
switched enabled seconds none = record {
  enabled = enabled;
  interval_seconds = seconds;
  last_sent_at = none;
}
switched enabled seconds (some r) = record {
  enabled = enabled;
  interval_seconds = seconds;
  last_sent_at = if enabled then none else r.last_sent_at;
}

abbrev pub write_rule : ℕ → String → Bool → ℕ → Tables → Tables
write_rule user rule enabled seconds t = record t {
  rules = insert (user, rule) (switched enabled seconds (lookup (user, rule) t.rules)) t.rules;
}
