-- ===== src/Protocol/Accepted.antt =====
-- What each part of `ValidateEnvelope` lets pass, against a description of the payloads.
use monitor_backend.Base.{
  ℕ, ◌≡◌, refl, ◌↔◌, String, true, Option, none, some, List, [], ◌∷◌, ◌++◌, All, arith,
}
use monitor_backend.Base.Int.{ℤ, pos, negsuc}
use monitor_backend.Base.Results.{Result, ok, ◌>>=◌}
use monitor_backend.Json.{Json, Number, Reader, unmarshal}
use monitor_backend.Protocol.{Point, ExpPayload, FramePayload}
use monitor_backend.Protocol.Validate.{
  or_error, number, le_number, lt_number, valid_point, check_decoded, check_points, exp_checks,
  frame_checks,
}

or_error_iff :
    {A : Type 0} (o : Option A) (e : String) (checks : A → Result (Unit {0}))
    → ((or_error o e >>= checks) ≡ ok tt) ↔ ((p : A) × (o ≡ some p) × (checks p ≡ ok tt))
or_error_iff none e checks = (λ k. absurd (cc k), λ d. absurd (cc d.1))
or_error_iff (some p) e checks = (λ k. (p, refl, k), λ d. cc (d.1, d.2))

-- A payload passes exactly when it is decoded and what it decodes to passes the checks.
pub check_decoded_iff :
    {A : Type 0} (fresh : A) (r : Reader A) (e : String) (checks : A → Result (Unit {0}))
    (raw : Option Json)
    → (check_decoded fresh r e checks raw ≡ ok tt)
      ↔ ((p : A) × (unmarshal fresh r raw ≡ some p) × (checks p ≡ ok tt))
unfolding check_decoded
check_decoded_iff fresh r e checks raw = or_error_iff (unmarshal fresh r raw) e checks

-- 0 ≤ n ≤ top.
abbrev pub Within : ℕ → Number → Type 0
Within top n = (le_number (number 0) n ≡ true) × (le_number n (number top) ≡ true)

-- No reading at all, or a whole one in range.
pub data ValidReading (p : ExpPayload) : Type 0 where
  no_reading : p.current_exp ≡ none → p.percent ≡ none → p.confidence ≡ none → ValidReading p
  reading :
      (e : ℕ) (percent confidence : Number)
      → p.current_exp ≡ some (pos e)
      → p.percent ≡ some percent
      → p.confidence ≡ some confidence
      → Within 100 percent
      → Within 1 confidence
      → ValidReading p

abbrev exp_of : Option ℤ → Option Number → Option Number → ExpPayload → ExpPayload
exp_of e q c p = record p { current_exp = e; percent = q; confidence = c }

exp_checks_sound :
    (e : Option ℤ) (q c : Option Number) (p : ExpPayload)
    → exp_checks (exp_of e q c p) ≡ ok tt
    → ValidReading (exp_of e q c p)
unfolding exp_checks lt_number
exp_checks_sound none none none p h = no_reading refl refl refl
exp_checks_sound (some (pos e)) (some q) (some c) p h =
    reading e q c refl refl refl (ground arith) (ground arith)
exp_checks_sound (some (negsuc e)) (some q) (some c) p h = absurd (ground arith)
exp_checks_sound none none (some c) p h = absurd (ground arith)
exp_checks_sound none (some q) none p h = absurd (ground arith)
exp_checks_sound none (some q) (some c) p h = absurd (ground arith)
exp_checks_sound (some e) none none p h = absurd (ground arith)
exp_checks_sound (some e) none (some c) p h = absurd (ground arith)
exp_checks_sound (some e) (some q) none p h = absurd (ground arith)

exp_checks_complete : (p : ExpPayload) → ValidReading p → exp_checks p ≡ ok tt
unfolding exp_checks lt_number
exp_checks_complete p (no_reading a b c) = ground arith
exp_checks_complete p (reading e q c a b d w v) = ground arith

-- An EXP payload passes exactly when it has no reading, or a whole one with a nonnegative
-- experience, a percentage in 0 to 100 and a confidence in 0 to 1.
pub exp_checks_iff : (p : ExpPayload) → (exp_checks p ≡ ok tt) ↔ ValidReading p
exp_checks_iff p = (exp_checks_sound p.current_exp p.percent p.confidence p, exp_checks_complete p)

pub check_points_iff :
    (ps : List Point) → (check_points ps ≡ ok tt) ↔ All (λ p. valid_point p ≡ true) ps
unfolding check_points
check_points_iff [] = (λ h. tt, λ h. refl)
check_points_iff (p ∷ ps) =
    let (there, back) = check_points_iff ps in
    (λ h. (ground arith, there (ground arith)), λ h. ground (arith, back h.1))

abbrev pub InUnit : Point → Type 0
InUnit p = Within 1 p.x × Within 1 p.y

valid_point_iff : (p : Point) → (valid_point p ≡ true) ↔ InUnit p
unfolding valid_point
valid_point_iff p = ground arith

-- The points of the player, if there is one.
abbrev pub player_points : Option Point → List Point
player_points none = []
player_points (some p) = p ∷ []

All-append {ℓ κ} :
    {A : Type ℓ} (P : A → Type κ) (xs ys : List A) → All P (xs ++ ys) ↔ (All P xs × All P ys)
All-append P [] ys = (λ h. (tt, h), λ h. h.1)
All-append P (x ∷ xs) ys =
    let (there, back) = All-append P xs ys in
    (λ h. ((h.0, (there h.1).0), (there h.1).1), λ h. (h.0.0, back (h.0.1, h.1)))

All-iff : (ps : List Point) → All (λ p. valid_point p ≡ true) ps ↔ All InUnit ps
All-iff [] = (λ h. h, λ h. h)
All-iff (p ∷ ps) = (
  λ h. ((valid_point_iff p).0 h.0, (All-iff ps).0 h.1),
  λ h. ((valid_point_iff p).1 h.0, (All-iff ps).1 h.1),
)

abbrev frame_of : Option Point → FramePayload → FramePayload
frame_of o p = record p { player = o }

frame_checks_iff_points :
    (o : Option Point) (p : FramePayload)
    → (frame_checks (frame_of o p) ≡ ok tt)
      ↔ (check_points (player_points o ++ (p.teammates.items ++ p.others.items)) ≡ ok tt)
unfolding frame_checks check_points
frame_checks_iff_points none p = (λ h. h, λ h. h)
frame_checks_iff_points (some q) p = ground arith

-- A frame passes exactly when the player, every teammate and every other lie in the unit square.
pub frame_checks_iff :
    (p : FramePayload)
    → (frame_checks p ≡ ok tt)
      ↔ All InUnit (player_points p.player ++ (p.teammates.items ++ p.others.items))
frame_checks_iff p =
    let all = player_points p.player ++ (p.teammates.items ++ p.others.items) in
    let (out, back) = frame_checks_iff_points p.player p in
    (
      λ h. (All-iff all).0 ((check_points_iff all).0 (out h)),
      λ h. back ((check_points_iff all).1 ((All-iff all).1 h)),
    )
