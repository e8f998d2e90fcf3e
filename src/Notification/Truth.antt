-- ===== src/Notification/Truth.antt =====
-- What a stall message says holds.
use monitor_backend.Base.{
  ℕ, suc, ◌+◌, ◌*◌, ◌≤◌, ◌≡◌, refl, String, Bool, true, false, not, ◌||◌, Option, none, some, List,
  [], ◌∷◌, ◌==◌, string_eq, nat_eq, eq_iff, nat_beq_iff, if◌then◌else◌, Map, lookup, insert,
  lookup-insert, arith, Bool-cases, inl, inr, ◌⊎◌, subst,
}
use monitor_backend.Base.Int.{ℤ, pos, negsuc, int_beq}
use monitor_backend.Notification.{stall_notification_due}
use monitor_backend.Notification.Stalls.{
  RuleState, Reserved, fresh_state, reserve_at, reserve_exp_stall_notification,
}

-- A state's count of notifications is no more than its stall allows, by `threshold` for each.
abbrev pub Truthful : ℕ → RuleState → Option ℕ → Type 0
Truthful threshold s none = s.consecutive_count ≡ 0
Truthful threshold s (some t) = s.last_changed_at + s.consecutive_count * threshold ≤ t

abbrev pub IsTruthful : ℕ → ℕ → Map ℕ RuleState → Type 0
IsTruthful threshold user states =
    (s : RuleState) → lookup user states ≡ some s → Truthful threshold s s.last_notification_at

int_beq-eq : (a b : ℤ) → int_beq a b ≡ true → a ≡ b
int_beq-eq (pos a) (pos b) e = ground (arith, nat_beq_iff a b)
int_beq-eq (negsuc a) (negsuc b) e = ground (arith, nat_beq_iff a b)
int_beq-eq (pos a) (negsuc b) e = absurd (cc e)
int_beq-eq (negsuc a) (pos b) e = absurd (cc e)

suc_times : (c t : ℕ) → suc c * t ≡ c * t + t
suc_times c t = grind arith

due-Truthful :
    (threshold now : ℕ) (s : RuleState) (o : Option ℕ)
    → Truthful threshold s o
    → stall_notification_due s.last_changed_at o threshold now ≡ true
    → s.last_changed_at + suc s.consecutive_count * threshold ≤ now
unfolding stall_notification_due
due-Truthful threshold now s none k d = ground (arith, suc_times s.consecutive_count threshold)
due-Truthful threshold now s (some t) k d = ground (arith, suc_times s.consecutive_count threshold)

lookup-insert_self :
    (user : ℕ) (s : RuleState) (m : Map ℕ RuleState) → lookup user (insert user s m) ≡ some s
lookup-insert_self user s m = rw (lookup-insert user user s m, (nat_beq_iff user user).1 refl)

insert-IsTruthful :
    (threshold user : ℕ) (x : RuleState) (states : Map ℕ RuleState)
    → Truthful threshold x x.last_notification_at
    → IsTruthful threshold user (insert user x states)
insert-IsTruthful threshold user x states k s e =
    subst (λ (y : RuleState). Truthful threshold y y.last_notification_at) {x = x} {y = s}
      (cc (e, lookup-insert_self user x states)) k

if-IsTruthful :
    (threshold user : ℕ) (b : Bool) (x y : Map ℕ RuleState)
    → IsTruthful threshold user x
    → IsTruthful threshold user y
    → IsTruthful threshold user (if b then x else y)
if-IsTruthful threshold user true x y p q = p
if-IsTruthful threshold user false x y p q = q

-- What a due reservation has found: the session's unchanged experience, for long enough.
abbrev pub Found : String → ℤ → ℕ → ℕ → ℕ → Option RuleState → Type 0
Found session exp threshold now count o =
    (s : RuleState) × (o ≡ some s)
    × (s.session_id ≡ session)
    × (s.last_numeric_value ≡ exp)
    × (s.last_changed_at + count * threshold ≤ now)

module _ (selects writes : Bool) (user : ℕ) (session : String) (exp : ℤ) (threshold now : ℕ) where
  abbrev reserve : Map ℕ RuleState → Reserved
  reserve states =
      reserve_exp_stall_notification selects writes user session exp threshold now states

  reserve_at-cases :
      (states : Map ℕ RuleState) (o : Option RuleState)
      → lookup user states ≡ o
      → IsTruthful threshold user states
      → let r = reserve_at writes user session exp threshold now states o in
        IsTruthful threshold user r.states
        × ((r.due ≡ false) ⊎ Found session exp threshold now r.count o)
  reserve_at-cases states none e k = (
    if-IsTruthful threshold user writes _ states
        (insert-IsTruthful threshold user (fresh_state session exp now) states refl) k,
    inl refl,
  )
  reserve_at-cases states (some s) e k =
      elim (Bool-cases (not (s.session_id == session) || not (int_beq s.last_numeric_value exp))) [
        | inl c ↦ rw c (
          if-IsTruthful threshold user writes (insert user (fresh_state session exp now) states)
              states (insert-IsTruthful threshold user (fresh_state session exp now) states refl) k,
          inl refl,
        )
        | inr c ↦
            elim (Bool-cases
              (stall_notification_due s.last_changed_at s.last_notification_at threshold now)) [
                | inl d ↦
                    let enough = due-Truthful threshold now s s.last_notification_at (k s e) d in
                    rw (c, d)
                      (
                        if-IsTruthful threshold user writes (insert user (counted s) states) states
                            (insert-IsTruthful threshold user (counted s) states enough) k,
                        inr (s, refl, same_session s c, same_exp s c, enough),
                      )
                | inr d ↦ rw (c, d) (k, inl refl)
              ]
      ]
    where
      counted : RuleState → RuleState
      counted s = record s {
        last_notification_at = some now;
        consecutive_count = suc s.consecutive_count;
      }

      same_session :
          (s : RuleState)
          → (not (s.session_id == session) || not (int_beq s.last_numeric_value exp)) ≡ false
          → s.session_id ≡ session
      same_session s c = ground (arith, eq_iff s.session_id session)

      same_exp :
          (s : RuleState)
          → (not (s.session_id == session) || not (int_beq s.last_numeric_value exp)) ≡ false
          → s.last_numeric_value ≡ exp
      same_exp s c = int_beq-eq _ _ (ground arith)

  reserve-cases :
      (states : Map ℕ RuleState)
      → IsTruthful threshold user states
      → IsTruthful threshold user (reserve states).states
        × (((reserve states).due ≡ false)
            ⊎ Found session exp threshold now (reserve states).count (lookup user states))
  unfolding reserve_exp_stall_notification
  reserve-cases states k = go selects
    where
      go :
          (b : Bool)
          → let r =
              if b
              then reserve_at writes user session exp threshold now states (lookup user states)
              else record { states = states; count = 0; due = false } in
            IsTruthful threshold user r.states
            × ((r.due ≡ false) ⊎ Found session exp threshold now r.count (lookup user states))
      go true = reserve_at-cases states (lookup user states) refl k
      go false = (k, inl refl)

-- One scan's reading of the user's rule.
pub record Reading : Type 0 where
  pub selects : Bool
  pub writes : Bool
  pub session : String
  pub exp : ℤ
  pub at : ℕ

-- The states after readings one after the other, from no states, with one threshold.
unfoldable pub tracked : ℕ → ℕ → List Reading → Map ℕ RuleState
tracked user threshold [] = []
tracked user threshold (r ∷ earlier) =
    (reserve_exp_stall_notification r.selects r.writes user r.session r.exp threshold r.at
      (tracked user threshold earlier)).states

tracked-IsTruthful :
    (user threshold : ℕ) (rs : List Reading) → IsTruthful threshold user (tracked user threshold rs)
unfolding tracked lookup
tracked-IsTruthful user threshold [] s e = absurd (cc e)
tracked-IsTruthful user threshold (r ∷ earlier) s e =
    (reserve-cases r.selects r.writes user r.session r.exp threshold r.at
        (tracked user threshold earlier) (tracked-IsTruthful user threshold earlier)).0
      s e

-- After any readings with the same threshold, in whatever order of time and with whatever failures
-- of the database, if a notification is due with the count `c`, then the user's state is of the
-- same session and the same experience, and was last changed at least `c` times the threshold ago.
pub stall_message_is_true :
    (user threshold : ℕ) (rs : List Reading) (r : Reading)
    → (reserve_exp_stall_notification r.selects r.writes user r.session r.exp threshold r.at
        (tracked user threshold rs)).due
      ≡ true
    → Found r.session r.exp threshold r.at
        (reserve_exp_stall_notification r.selects r.writes user r.session r.exp threshold r.at
          (tracked user threshold rs)).count
        (lookup user (tracked user threshold rs))
stall_message_is_true user threshold rs r d =
    elim ((reserve-cases r.selects r.writes user r.session r.exp threshold r.at
      (tracked user threshold rs) (tracked-IsTruthful user threshold rs)).1) [
        | inl n ↦ absurd (cc (d, n))
        | inr f ↦ f
      ]
