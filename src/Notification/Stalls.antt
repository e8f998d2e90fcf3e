-- ===== src/Notification/Stalls.antt =====
-- `reserveEXPStallNotification`, `evaluateEXPStall` and `processEXPStalls`. The rows of the rule
-- "exp_stalled" in `notification_rule_states` are keyed by their user.
use monitor_backend.Base.{
  ℕ, suc, ◌*◌, String, Bool, false, not, ◌||◌, Option, none, some, List, [], ◌∷◌, ◌++◌, ◌==◌,
  string_eq, nat_eq, if◌then◌else◌, Map, lookup, insert, erase, is_some,
}
use monitor_backend.Base.Int.{ℤ, int_beq}
use monitor_backend.Protocol.{ExpPayload}
use monitor_backend.Hub.{Hub}
use monitor_backend.Hub.Watching.{latest_exp}
use monitor_backend.Notification.{second, normalize_stall_seconds, stall_notification_due}

pub record RuleState : Type 0 where
  pub session_id : String
  pub last_numeric_value : ℤ
  pub last_changed_at : ℕ
  pub last_notification_at : Option ℕ
  pub consecutive_count : ℕ

abbrev pub fresh_state : String → ℤ → ℕ → RuleState
fresh_state session exp now = record {
  session_id = session;
  last_numeric_value = exp;
  last_changed_at = now;
  last_notification_at = none;
  consecutive_count = 0;
}

-- The count and whether a notification is due; an error of the database makes none due.
pub record Reserved : Type 0 where
  pub states : Map ℕ RuleState
  pub count : ℕ
  pub due : Bool

abbrev pub reserve_at :
    Bool → ℕ → String → ℤ → ℕ → ℕ → Map ℕ RuleState → Option RuleState → Reserved
reserve_at writes user session exp threshold now states none = record {
  states = if writes then insert user (fresh_state session exp now) states else states;
  count = 0;
  due = false;
}
reserve_at writes user session exp threshold now states (some s) =
    if not (s.session_id == session) || not (int_beq s.last_numeric_value exp)
    then record {
      states = if writes then insert user (fresh_state session exp now) states else states;
      count = 0;
      due = false;
    }
    else if not (stall_notification_due s.last_changed_at s.last_notification_at threshold now)
    then record { states = states; count = s.consecutive_count; due = false }
    else record {
      states =
          if writes
          then insert user
              (record s {
                last_notification_at = some now;
                consecutive_count = suc s.consecutive_count;
              })
              states
          else states;
      count = suc s.consecutive_count;
      due = writes;
    }

-- `selects` and `writes` are whether the statements succeed.
unfoldable pub reserve_exp_stall_notification :
    Bool → Bool → ℕ → String → ℤ → ℕ → ℕ → Map ℕ RuleState → Reserved
unfolding stall_notification_due
reserve_exp_stall_notification selects writes user session exp threshold now states =
    if selects
    then reserve_at writes user session exp threshold now states (lookup user states)
    else record { states = states; count = 0; due = false }

-- A row of the query of `processEXPStalls`, without the channel's secret.
pub record StalledExpRule : Type 0 where
  pub user_id : ℕ
  pub session_id : String
  pub threshold_seconds : ℕ

-- What the message says: how many seconds the experience did not grow.
pub record StallMessage : Type 0 where
  pub user_id : ℕ
  pub stalled_seconds : ℕ
  pub current_exp : ℤ

abbrev pub usable_exp : ExpPayload × Bool × Bool → Option ℤ
usable_exp (exp, online, found) =
    if not found || not online || not (is_some exp.percent) then none else exp.current_exp

abbrev pub evaluate_at :
    Bool
    → Bool
    → StalledExpRule
    → ℕ
    → Map ℕ RuleState
    → Option ℤ
    → Map ℕ RuleState × List StallMessage
evaluate_at selects writes rule now states none = (erase rule.user_id states, [])
evaluate_at selects writes rule now states (some exp) =
    let seconds = normalize_stall_seconds rule.threshold_seconds in
    let r =
      reserve_exp_stall_notification selects writes rule.user_id rule.session_id exp
        (seconds * second) now states in
    (
      r.states,
      if not r.due
          then []
          else record {
            user_id = rule.user_id;
            stalled_seconds = seconds * r.count;
            current_exp = exp;
          }
            ∷ [],
    )

unfoldable pub evaluate_exp_stall :
    Bool → Bool → Hub → StalledExpRule → ℕ → Map ℕ RuleState → Map ℕ RuleState × List StallMessage
unfolding normalize_stall_seconds reserve_exp_stall_notification latest_exp
evaluate_exp_stall selects writes hub rule now states =
    evaluate_at selects writes rule now states (usable_exp (latest_exp rule.session_id hub))

abbrev pub is_handled : ℕ → List ℕ → Bool
is_handled user [] = false
is_handled user (u ∷ us) = u == user || is_handled user us

pub record Scan : Type 0 where
  pub handled : List ℕ
  pub states : Map ℕ RuleState
  pub messages : List StallMessage

abbrev pub scan_rule : Bool → Bool → Hub → ℕ → StalledExpRule → Scan → Scan
scan_rule selects writes hub now rule s =
    if is_handled rule.user_id s.handled
      || not (is_some (usable_exp (latest_exp rule.session_id hub)))
    then s
    else (let (states, sent) = evaluate_exp_stall selects writes hub rule now s.states in
        record {
          handled = rule.user_id ∷ s.handled;
          states = states;
          messages = s.messages ++ sent;
        })

-- The two loops of `processEXPStalls`.
unfoldable pub scan_rules : Bool → Bool → Hub → ℕ → List StalledExpRule → Scan → Scan
unfolding evaluate_exp_stall latest_exp
scan_rules selects writes hub now [] s = s
scan_rules selects writes hub now (rule ∷ rules) s =
    scan_rules selects writes hub now rules (scan_rule selects writes hub now rule s)

unfoldable pub forget_rules : List StalledExpRule → List ℕ → Map ℕ RuleState → Map ℕ RuleState
forget_rules [] handled states = states
forget_rules (rule ∷ rules) handled states =
    if is_handled rule.user_id handled
    then forget_rules rules handled states
    else forget_rules rules (rule.user_id ∷ handled) (erase rule.user_id states)

unfoldable pub process_exp_stalls :
    Bool
    → Bool
    → Hub
    → ℕ
    → List StalledExpRule
    → Map ℕ RuleState
    → Map ℕ RuleState × List StallMessage
unfolding scan_rules forget_rules
process_exp_stalls selects writes hub now rules states =
    let s =
      scan_rules selects writes hub now rules
        (record { handled = []; states = states; messages = [] }) in
    (forget_rules rules s.handled s.states, s.messages)
