-- ===== src/Notification/Readback.antt =====
-- The settings that a switch leaves.
use monitor_backend.Base.{
  nat_beq_iff, same_pair_iff, ℕ, ◌≡◌, ◌≢◌, refl, sym, ap, subst, ◌∙◌, String, Bool, true, false,
  not, ◌&&◌, Option, none, some, ◌==◌, string_eq, nat_eq, pair_eq, same_pair, lookup, erase,
  lookup-insert, arith,
}
use monitor_backend.Base.Int.{pos}
use monitor_backend.Base.Results.{Result, ok, err, passed, ok_inj}
use monitor_backend.Notification.{normalize_stall_seconds}
use monitor_backend.Notification.Settings.{
  Tables, StoredRule, settings, read_settings, read_settings, switched, write_rule, rule_seconds,
  bark_configured,
}
use monitor_backend.Notification.Switches.{
  Switch, switch_rule, clear_state, clearing, stalled_for, stall_seconds, set_exp_stalled,
}
use monitor_backend.Notification.Guards.{switched-enabled}

no_ok {ℓ} : {A : Type ℓ} {x : A} (why : String) → ◌≡◌ {A = Result A} (err why) (ok x) → ⊥
no_ok why e = cc

-- What a successful call writes.
stalled-writes :
    (db : Switch) (user : ℕ) (enabled : Bool) (o : Option ℕ) (t after : Tables)
    → stalled_for db user enabled o t ≡ (after, ok tt)
    → (n : ℕ) × (o ≡ some n)
      × (record (write_rule user "exp_stalled" enabled n t) { states = erase user t.states }
          ≡ after)
stalled-writes db user enabled none t after e = absurd (no_ok _ (ap (λ x. x.1) e))
stalled-writes db user enabled (some n) t after e =
    (n, refl, go (switch_rule db user "exp_stalled" enabled n t) refl e)
  where
    cleared :
        (a : Tables) (b : Bool)
        → a ≡ write_rule user "exp_stalled" enabled n t
        → clear_state b user a ≡ (after, ok tt)
        → record (write_rule user "exp_stalled" enabled n t) { states = erase user t.states }
          ≡ after
    cleared a false w x = absurd (no_ok _ (ap (λ z. z.1) x))
    cleared a true w x =
        ap (λ (z : Tables). record z { states = erase user z.states }) (sym w) ∙ ap (λ z. z.0) x

    go :
        (r : Result Tables)
        → switch_rule db user "exp_stalled" enabled n t ≡ r
        → clearing db user t r ≡ (after, ok tt)
        → record (write_rule user "exp_stalled" enabled n t) { states = erase user t.states }
          ≡ after
    go (err why) w x = absurd (no_ok _ (ap (λ z. z.1) x))
    go (ok a) w x =
        let (l, e1) =
          passed (enabled && not (bark_configured db.selects user t)) "Bark DeviceKey 尚未配置" _ a w in
        let (m, e2) = passed (not db.writes) "storage_error" _ a e1 in
        cleared a db.clears (sym (ok_inj _ a e2)) x

same_seconds :
    (n m : ℕ) → stall_seconds (pos n) ≡ some m → (n ≡ m) × (normalize_stall_seconds n ≡ n)
unfolding normalize_stall_seconds
same_seconds n m e = ground arith

seconds-switched :
    (enabled : Bool) (n : ℕ) (o : Option StoredRule)
    → rule_seconds (some (switched enabled n o)) ≡ normalize_stall_seconds n
seconds-switched enabled n none = refl
seconds-switched enabled n (some r) = refl

abbrev set_rule : ℕ → Bool → ℕ → Tables → Tables
set_rule user enabled n t = record (write_rule user "exp_stalled" enabled n t) {
  states = erase user t.states;
}

lookup-set_rule :
    (user other : ℕ) (name : String) (enabled : Bool) (n : ℕ) (t : Tables)
    → same_pair (user, "exp_stalled") (other, name) ≡ false
    → lookup (other, name) (set_rule user enabled n t).rules ≡ lookup (other, name) t.rules
lookup-set_rule user other name enabled n t e =
    lookup-insert (user, "exp_stalled") (other, name) _ t.rules ∙ rw e refl

other_rule :
    (user : ℕ) (name : String)
    → ("exp_stalled" == name) ≡ false
    → same_pair (user, "exp_stalled") (user, name) ≡ false
other_rule user name e = ground (arith, e)

other_user :
    (user other : ℕ) (name : String)
    → user ≢ other
    → same_pair (user, "exp_stalled") (other, name) ≡ false
other_user user other name d = ground (arith, d, nat_beq_iff user other)

read-own :
    (user : ℕ) (enabled : Bool) (n : ℕ) (t : Tables)
    → normalize_stall_seconds n ≡ n
    → read_settings user (set_rule user enabled n t)
      ≡ record (read_settings user t) { exp_stalled_enabled = enabled; exp_stalled_seconds = n }
unfolding read_settings
read-own user enabled n t f =
    let own : lookup (user, "exp_stalled") (set_rule user enabled n t).rules
        ≡ some (switched enabled n (lookup (user, "exp_stalled") t.rules)) =
      lookup-insert (user, "exp_stalled") (user, "exp_stalled") _ t.rules
      ∙ rw ((same_pair_iff (user, "exp_stalled") (user, "exp_stalled")).1 refl) refl in
    let o = lookup (user, "exp_stalled") t.rules in
    let rune =
      lookup-set_rule user user "rune_alert" enabled n t (other_rule user "rune_alert" refl) in
    let mouse =
      lookup-set_rule user user "mouse_follow_verification" enabled n t
        (other_rule user "mouse_follow_verification" refl) in
    let zone =
      lookup-set_rule user user "zone_breach" enabled n t (other_rule user "zone_breach" refl) in
    rw (own, rune, mouse, zone, switched-enabled enabled n o, seconds-switched enabled n o, f) refl

read-other :
    (user other : ℕ) (enabled : Bool) (n : ℕ) (t : Tables)
    → user ≢ other
    → read_settings other (set_rule user enabled n t) ≡ read_settings other t
unfolding read_settings
read-other user other enabled n t d =
    let same : (name : String)
        → lookup (other, name) (set_rule user enabled n t).rules ≡ lookup (other, name) t.rules =
      λ name. lookup-set_rule user other name enabled n t (other_user user other name d) in
    rw (same "exp_stalled", same "rune_alert", same "mouse_follow_verification", same "zone_breach")
      refl

-- Setting the stall rule of an account with a number of seconds, if it succeeds, leaves settings that read
-- the switch and the number back, and are otherwise those from before. The other accounts' are the same.
pub settings-set_exp_stalled :
    (db : Switch) (user other n : ℕ) (enabled : Bool) (t after : Tables)
    → user ≢ other
    → set_exp_stalled db user enabled (pos n) t ≡ (after, ok tt)
    → (settings true user after
        ≡ ok (record (read_settings user t) {
          exp_stalled_enabled = enabled;
          exp_stalled_seconds = n;
        }))
      × (settings true other after ≡ settings true other t)
unfolding set_exp_stalled settings
settings-set_exp_stalled db user other n enabled t after d e =
    let (m, f, w) = stalled-writes db user enabled (stall_seconds (pos n)) t after e in
    let (k, norm) = same_seconds n m f in
    let back : set_rule user enabled n t ≡ after = ap (λ x. set_rule user enabled x t) k ∙ w in
    subst
      (λ (x : Tables).
        (settings true user x
          ≡ ok (record (read_settings user t) {
            exp_stalled_enabled = enabled;
            exp_stalled_seconds = n;
          }))
        × (settings true other x ≡ settings true other t))
      back (ap ok (read-own user enabled n t norm), ap ok (read-other user other enabled n t d))
