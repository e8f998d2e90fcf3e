-- ===== src/Notification/Guards.antt =====
-- A rule that is on belongs to an account with a channel.
use monitor_backend.Base.{
  ℕ, ◌≡◌, refl, ap, subst, ◌∙◌, inl, inr, String, Bool, true, false, not, ◌&&◌, ◌||◌, Option, none,
  some, ◌==◌, string_eq, nat_eq, pair_eq, same_pair, same_pair_iff, if◌then◌else◌, lookup, insert,
  lookup-insert, arith, Bool-cases,
}
use monitor_backend.Base.Results.{Result, ok, err, passed, succeeded, ok_inj}
use monitor_backend.Base.Texts.{trim_space}
use monitor_backend.Notification.Settings.{
  Channel, StoredRule, Tables, channel_enabled, rule_enabled, bound_channel, bind_channel,
  is_device_key, save_bark, bark_configured, switched, write_rule,
}
use monitor_backend.Notification.Switches.{
  Switch, switch_rule, keeping, clearing, clear_state, stalled_for, muted,
}

-- Where a rule is on, the account has a channel that is on.
abbrev pub Guarded : Tables → Type 0
Guarded t =
    (user : ℕ) (rule : String)
    → (not (rule_enabled (lookup (user, rule) t.rules)) || channel_enabled (lookup user t.channels))
      ≡ true

pub switched-enabled :
    (enabled : Bool) (n : ℕ) (o : Option StoredRule)
    → rule_enabled (some (switched enabled n o)) ≡ enabled
switched-enabled enabled n none = refl
switched-enabled enabled n (some r) = refl

written-Guarded :
    (user : ℕ) (rule : String) (enabled : Bool) (n : ℕ) (t : Tables)
    → (not enabled || channel_enabled (lookup user t.channels)) ≡ true
    → Guarded t
    → Guarded (write_rule user rule enabled n t)
written-Guarded user rule enabled n t on g other name =
    elim (Bool-cases (same_pair (user, rule) (other, name))) [
      | inl same ↦
          let p : (user, rule) ≡ (other, name) =
            (same_pair_iff (user, rule) (other, name)).0 same in
          let found : lookup (other, name) (write_rule user rule enabled n t).rules
              ≡ some (switched enabled n (lookup (user, rule) t.rules)) =
            lookup-insert (user, rule) (other, name) _ t.rules ∙ rw same refl in
          let here : (not enabled || channel_enabled (lookup other t.channels)) ≡ true =
            subst
              (λ (z : ℕ × String). (not enabled || channel_enabled (lookup z.0 t.channels)) ≡ true)
              p on in
          rw (found, switched-enabled enabled n (lookup (user, rule) t.rules)) here
      | inr differs ↦
          let kept : lookup (other, name) (write_rule user rule enabled n t).rules
              ≡ lookup (other, name) t.rules =
            lookup-insert (user, rule) (other, name) _ t.rules ∙ rw differs refl in
          rw kept (g other name)
    ]

allowed :
    (enabled selects on : Bool)
    → (enabled && not (selects && on)) ≡ false
    → (not enabled || on) ≡ true
allowed enabled selects on e = ground arith

switch-Guarded :
    (db : Switch) (user : ℕ) (rule : String) (enabled : Bool) (n : ℕ) (t after : Tables)
    → Guarded t
    → switch_rule db user rule enabled n t ≡ ok after
    → Guarded after
unfolding bark_configured
switch-Guarded db user rule enabled n t after g e =
    let (a, e1) =
      passed (enabled && not (bark_configured db.selects user t)) "Bark DeviceKey 尚未配置" _ after e in
    let (b, e2) = passed (not db.writes) "storage_error" _ after e1 in
    subst Guarded (ok_inj _ after e2)
      (written-Guarded user rule enabled n t (allowed enabled db.selects _ a) g)

pub kept-Guarded :
    (db : Switch) (user : ℕ) (rule : String) (enabled : Bool) (n : ℕ) (t : Tables)
    → Guarded t
    → Guarded (keeping t (switch_rule db user rule enabled n t)).0
kept-Guarded db user rule enabled n t g = go (switch_rule db user rule enabled n t) refl
  where
    go : (r : Result Tables) → switch_rule db user rule enabled n t ≡ r → Guarded (keeping t r).0
    go (err why) e = g
    go (ok after) e = switch-Guarded db user rule enabled n t after g e

pub stalled-Guarded :
    (db : Switch) (user : ℕ) (enabled : Bool) (o : Option ℕ) (t : Tables)
    → Guarded t
    → Guarded (stalled_for db user enabled o t).0
stalled-Guarded db user enabled none t g = g
stalled-Guarded db user enabled (some n) t g =
    go (switch_rule db user "exp_stalled" enabled n t) refl
  where
    cleared : (after : Tables) (b : Bool) → Guarded after → Guarded (clear_state b user after).0
    cleared after false h = h
    cleared after true h = h

    go :
        (r : Result Tables)
        → switch_rule db user "exp_stalled" enabled n t ≡ r
        → Guarded (clearing db user t r).0
    go (err why) e = g
    go (ok after) e =
        cleared after db.clears (switch-Guarded db user "exp_stalled" enabled n t after g e)

or_true : (a b : Bool) → b ≡ true → (not a || b) ≡ true
or_true a b e = ground arith

bound-enabled :
    (secret : String) (o : Option Channel) → channel_enabled (some (bound_channel secret o)) ≡ true
bound-enabled secret none = refl
bound-enabled secret (some c) = refl

bound-Guarded :
    (user : ℕ) (secret : String) (t : Tables) → Guarded t → Guarded (bind_channel user secret t)
bound-Guarded user secret t g other name = elim (Bool-cases (user == other)) [
  | inl same ↦
      let found : lookup other (bind_channel user secret t).channels
          ≡ some (bound_channel secret (lookup user t.channels)) =
        lookup-insert user other _ t.channels ∙ rw same refl in
      or_true _ _ (ap channel_enabled found ∙ bound-enabled secret (lookup user t.channels))
  | inr differs ↦
      let channel : lookup other (bind_channel user secret t).channels ≡ lookup other t.channels =
        lookup-insert user other _ t.channels ∙ rw differs refl in
      let rule : lookup (other, name) (bind_channel user secret t).rules
          ≡ lookup (other, name) t.rules =
        lookup-insert (user, "mouse_follow_verification") (other, name) _ t.rules
        ∙ rw differs refl in
      rw (rule, channel) (g other name)
]

pub muted-Guarded :
    (user : ℕ) (flag : Bool) (o : Option Channel) (t : Tables)
    → Guarded t
    → Guarded (muted user flag o t)
muted-Guarded user flag none t g = g
muted-Guarded user flag (some c) t g = go c.enabled refl
  where
    change :
        c.enabled ≡ true
        → Guarded (record t {
          channels = insert user (record c { urgent_alerts_muted = flag }) t.channels;
        })
    change on other name = elim (Bool-cases (user == other)) [
      | inl same ↦
          let found : lookup other
                (insert user (record c { urgent_alerts_muted = flag }) t.channels)
              ≡ some (record c { urgent_alerts_muted = flag }) =
            lookup-insert user other _ t.channels ∙ rw same refl in
          or_true _ _ (ap channel_enabled found ∙ on)
      | inr differs ↦
          let channel : lookup other
                (insert user (record c { urgent_alerts_muted = flag }) t.channels)
              ≡ lookup other t.channels =
            lookup-insert user other _ t.channels ∙ rw differs refl in
          rw channel (g other name)
    ]

    go :
        (b : Bool)
        → c.enabled ≡ b
        → Guarded (
            if b
            then record t {
              channels = insert user (record c { urgent_alerts_muted = flag }) t.channels;
            }
            else t)
    go true on = change on
    go false off = g

pub save_bark-Guarded :
    (key_ok : String → Result (Unit {0})) (seal : String → Result String) (commits : Bool)
    (user : ℕ)
    → (raw : String) (t after : Tables) → Guarded t
    → save_bark key_ok seal commits user raw t ≡ ok after
    → Guarded after
unfolding save_bark
save_bark-Guarded key_ok seal commits user raw t after g e =
    let (a, e1) =
      passed (not (is_device_key (trim_space raw))) "invalid Bark DeviceKey" _ after e in
    let (x, b, e2) = succeeded (key_ok (trim_space raw)) _ after e1 in
    let (secret, c, e3) = succeeded (seal (trim_space raw)) _ after e2 in
    let (d, e4) = passed (not commits) "storage_error" _ after e3 in
    subst Guarded (ok_inj _ after e4) (bound-Guarded user secret t g)
