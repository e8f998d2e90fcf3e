-- ===== src/Notification/Deliveries.antt =====
-- The test notifications, and the record of the deliveries. The answers of the Bark server are arguments.
use Prim.Native.String.{len, slice}
use monitor_backend.Base.{
  ℕ, ◌+◌, ◌*◌, String, Bool, false, not, ◌&&◌, Option, none, some, List, [], ◌∷◌, ◌++◌, ◌==◌,
  string_eq, nat_eq, pair_eq, if◌then◌else◌, lookup, ltb, leb,
}
use monitor_backend.Base.Int.{ℤ, pos, negsuc}
use monitor_backend.Base.Results.{Result, ok, err, ◌>>=◌, ◌>>◌, refuse_if}
use monitor_backend.Notification.{second}
use monitor_backend.Notification.Settings.{Channel, Delivery, Tables}

-- `SELECT MAX(created_at)`.
abbrev pub later_of : ℕ → Option ℕ → Option ℕ
later_of at none = some at
later_of at (some t) = if ltb t at then some at else some t

abbrev pub is_test_of : ℕ → String → Delivery → Bool
is_test_of user event d = d.user_id == user && d.event_type == event

unfoldable pub last_attempt : ℕ → String → List Delivery → Option ℕ
last_attempt user event [] = none
last_attempt user event (d ∷ ds) =
    let rest = last_attempt user event ds in
    if is_test_of user event d then later_of d.created_at rest else rest

abbrev pub test_pause : ℕ
test_pause = 10 * second

abbrev pub is_frequent : Option ℕ → ℕ → Bool
is_frequent none now = false
is_frequent (some t) now = ltb now (t + test_pause)

-- A longer error text is cut at 500 bytes, here not inside a character.
abbrev pub delivery_of : ℕ → String → ℕ → Result (Unit {0}) → Delivery
delivery_of user event at (ok done) = record {
  user_id = user;
  event_type = event;
  status = "sent";
  error_message = none;
  created_at = at;
}
delivery_of user event at (err why) = record {
  user_id = user;
  event_type = event;
  status = "failed";
  error_message =
      if why == "" then none else some (if ltb 500 (len why) then slice why 0 500 else why);
  created_at = at;
}

-- `recordDelivery`: an insert that fails is only logged.
unfoldable pub record_delivery : Bool → ℕ → String → ℕ → Result (Unit {0}) → Tables → Tables
record_delivery writes user event at sent t =
    if writes
    then record t { deliveries = t.deliveries ++ (delivery_of user event at sent ∷ []) }
    else t

-- Which statements succeed, and the times of the call and of the record.
pub record Attempt : Type 0 where
  pub reads_last : Bool
  pub selects_key : Bool
  pub records : Bool
  pub now : ℕ
  pub recorded_at : ℕ

abbrev pub secret_of : Option Channel → Result String
secret_of none = err "Bark DeviceKey 尚未配置"
secret_of (some c) = if c.enabled then ok c.secret_ciphertext else err "Bark DeviceKey 尚未配置"

-- `decrypt` is the decryption of the stored key.
unfoldable pub device_key : (String → Result String) → Bool → ℕ → Tables → Result String
unfolding lookup
device_key decrypt selects user t =
    refuse_if (not selects) "storage_error" >> (secret_of (lookup user t.channels) >>= decrypt)

abbrev pub push_to :
    (String → Result (Unit {0}))
    → Attempt
    → ℕ
    → String
    → Tables
    → Result String
    → Tables × Result (Unit {0})
push_to push a user event t (err why) = (t, err why)
push_to push a user event t (ok key) =
    (record_delivery a.records user event a.recorded_at (push key) t, push key)

-- `sendTest`: `push` is the answer of the Bark server to the notification for a key.
unfoldable pub send_test_as :
    (String → Result String)
    → (String → Result (Unit {0}))
    → Attempt
    → ℕ
    → String
    → Tables
    → Tables × Result (Unit {0})
unfolding last_attempt device_key record_delivery
send_test_as decrypt push a user event t =
    if a.reads_last && is_frequent (last_attempt user event t.deliveries) a.now
    then (t, err "测试通知发送过于频繁，请稍后再试")
    else push_to push a user event t (device_key decrypt a.selects_key user t)

unfoldable pub send_test :
    (String → Result String)
    → (String → Result (Unit {0}))
    → Attempt
    → ℕ
    → Tables
    → Tables × Result (Unit {0})
unfolding send_test_as
send_test decrypt push a user t = send_test_as decrypt push a user "test" t

-- The volume of a critical notification is from 0 to 10.
abbrev pub good_volume : ℤ → Bool
good_volume (pos n) = leb n 10
good_volume (negsuc n) = false

unfoldable pub send_critical_test :
    (String → Result String)
    → (ℤ → String → Result (Unit {0}))
    → Attempt
    → ℕ
    → ℤ
    → Tables
    → Tables × Result (Unit {0})
unfolding send_test_as
send_critical_test decrypt push a user volume t =
    if not (good_volume volume)
    then (t, err "紧急通知音量须为 0–10")
    else send_test_as decrypt (push volume) a user "critical_test" t
