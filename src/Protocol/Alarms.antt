-- ===== src/Protocol/Alarms.antt =====
-- The alarms that a device may report: rune, verification and safe zone.
use monitor_backend.Protocol.Accepted.{Within}
use monitor_backend.Base.{◌≡◌, refl, ◌≢◌, ◌↔◌, Bool, true, false, Option, none, some, arith}
use monitor_backend.Base.Int.{is_pos}
use monitor_backend.Base.Results.{ok}
use monitor_backend.Json.{Number}
use monitor_backend.Protocol.{RunePayload, VerificationPayload, ZonePayload, ZoneRect}
use monitor_backend.Protocol.Validate.{
  lt_number, valid_rect, rune_checks, verification_checks, zone_checks,
}

-- A timestamp, a confidence in 0 to 1 if there is one, and none once the rune is cleared.
pub record ValidRune (p : RunePayload) : Type 0 where
  pub stamped : is_pos p.detected_at ≡ true
  pub confident : (c : Number) → p.confidence ≡ some c → Within 1 c
  pub cleared : p.detected ≡ false → p.confidence ≡ none

rune_of : Option Number → Bool → RunePayload → RunePayload
rune_of c d p = record p { confidence = c; detected = d }

rune_checks_cases :
    (c : Option Number) (d : Bool) (p : RunePayload)
    → (rune_checks (rune_of c d p) ≡ ok tt) ↔ ValidRune (rune_of c d p)
unfolding rune_checks rune_of lt_number
rune_checks_cases none true p = (
  λ h. record {
    stamped = ground arith;
    confident = λ c e. absurd (cc e);
    cleared = λ e. absurd (cc e);
  },
  λ v. ground arith,
)
rune_checks_cases none false p = (
  λ h. record { stamped = ground arith; confident = λ c e. absurd (cc e); cleared = λ e. refl },
  λ v. ground arith,
)
rune_checks_cases (some c) true p = (
  λ h. record {
    stamped = ground arith;
    confident = λ b e. (ground arith, ground arith);
    cleared = λ e. absurd (cc e);
  },
  λ v. ground (arith, v.confident c refl),
)
rune_checks_cases (some c) false p = (λ h. absurd (ground arith), λ v. absurd (cc (v.cleared refl)))

-- A timestamp, a confidence in 0 to 1 if there is one, and none once the verification is cleared.
pub record ValidVerification (p : VerificationPayload) : Type 0 where
  pub stamped : is_pos p.detected_at ≡ true
  pub confident : (c : Number) → p.confidence ≡ some c → Within 1 c
  pub cleared : p.detected ≡ false → p.confidence ≡ none

verification_of : Option Number → Bool → VerificationPayload → VerificationPayload
verification_of c d p = record p { confidence = c; detected = d }

verification_checks_cases :
    (c : Option Number) (d : Bool) (p : VerificationPayload)
    → (verification_checks (verification_of c d p) ≡ ok tt)
      ↔ ValidVerification (verification_of c d p)
unfolding verification_checks verification_of lt_number
verification_checks_cases none true p = (
  λ h. record {
    stamped = ground arith;
    confident = λ c e. absurd (cc e);
    cleared = λ e. absurd (cc e);
  },
  λ v. ground arith,
)
verification_checks_cases none false p = (
  λ h. record { stamped = ground arith; confident = λ c e. absurd (cc e); cleared = λ e. refl },
  λ v. ground arith,
)
verification_checks_cases (some c) true p = (
  λ h. record {
    stamped = ground arith;
    confident = λ b e. (ground arith, ground arith);
    cleared = λ e. absurd (cc e);
  },
  λ v. ground (arith, v.confident c refl),
)
verification_checks_cases (some c) false p =
    (λ h. absurd (ground arith), λ v. absurd (cc (v.cleared refl)))

-- A safe-zone report has a timestamp, a valid rectangle if any, and one whenever it is a breach.
pub record ValidZone (p : ZonePayload) : Type 0 where
  pub stamped : is_pos p.detected_at ≡ true
  pub shaped : (r : ZoneRect) → p.rect ≡ some r → valid_rect r ≡ true
  pub drawn : p.outside ≡ true → p.rect ≢ none

zone_of : Option ZoneRect → Bool → ZonePayload → ZonePayload
zone_of r o p = record p { rect = r; outside = o }

zone_checks_cases :
    (r : Option ZoneRect) (o : Bool) (p : ZonePayload)
    → (zone_checks (zone_of r o p) ≡ ok tt) ↔ ValidZone (zone_of r o p)
unfolding zone_checks zone_of
zone_checks_cases none true p = (λ h. absurd (ground arith), λ v. absurd (v.drawn refl refl))
zone_checks_cases none false p = (
  λ h. record { stamped = ground arith; shaped = λ c e. absurd (cc e); drawn = λ e. absurd (cc e) },
  λ v. ground arith,
)
zone_checks_cases (some r) o p = (
  λ h. record { stamped = ground arith; shaped = λ b e. ground arith; drawn = λ e f. cc f },
  λ v. ground (arith, v.shaped r refl),
)

-- A rune report passes exactly when it is a valid one.
pub rune_checks_iff : (p : RunePayload) → (rune_checks p ≡ ok tt) ↔ ValidRune p
unfolding rune_of
rune_checks_iff p = rune_checks_cases p.confidence p.detected p

-- A verification report passes exactly when it is a valid one.
pub verification_checks_iff :
    (p : VerificationPayload) → (verification_checks p ≡ ok tt) ↔ ValidVerification p
unfolding verification_of
verification_checks_iff p = verification_checks_cases p.confidence p.detected p

-- A safe-zone report passes exactly when it is a valid one.
pub zone_checks_iff : (p : ZonePayload) → (zone_checks p ≡ ok tt) ↔ ValidZone p
unfolding zone_of
zone_checks_iff p = zone_checks_cases p.rect p.outside p
