-- ===== src/Protocol/Validate.antt =====
-- `ValidateEnvelope` of internal/protocol/messages.go, one function for each message type. A
-- floating-point number is a float64, and so is a sum of two.
use Prim.Native.String.{len, count}
use monitor_backend.Base.{
  ℕ, ◌+◌, ◌*◌, ◌^◌, ◌-◌, String, Bool, true, false, not, ◌&&◌, ◌||◌, Option, none, some, List, [],
  ◌∷◌, ◌++◌, ◌==◌, string_eq, nat_eq, if◌then◌else◌, ltb, leb, is_some,
}
use monitor_backend.Base.Int.{ℤ, is_pos, is_neg, pos, int_beq}
use monitor_backend.Base.Results.{Result, ok, err, ◌>>=◌, ◌>>◌, refuse_if}
use monitor_backend.Json.{Json, Number, Reader, unmarshal, round_float}
use monitor_backend.Protocol.{
  Point, ZoneRect, MapPayload, FramePayload, ClientStatePayload, ExpPayload, RunePayload,
  VerificationPayload, ZonePayload, TeamJoinedPayload, RopePartyProgressPayload, Envelope,
  max_message_bytes, zero_map, zero_frame, zero_status, zero_client_state, zero_team_joined,
  zero_progress, zero_exp, zero_rune, zero_verification, zero_zone, zero_envelope, read_map,
  read_frame, read_status, read_client_state, read_team_joined, read_progress, read_exp, read_rune,
  read_verification, read_zone, read_envelope, zero_number,
}

abbrev plus : Number → ℕ
plus n = if n.negative then 0 else n.digits

abbrev minus : Number → ℕ
minus n = if n.negative then n.digits else 0

-- `a <= b` and `a < b`, over a common denominator.
unfoldable pub le_number : Number → Number → Bool
le_number a b =
    leb (plus a * 10 ^ b.scale + minus b * 10 ^ a.scale)
      (plus b * 10 ^ a.scale + minus a * 10 ^ b.scale)

unfoldable pub lt_number : Number → Number → Bool
unfolding le_number
lt_number a b = not (le_number b a)

-- The sum, rounded once.
unfoldable pub add_number : Number → Number → Number
unfolding round_float
add_number a b =
    let up = plus a * 10 ^ b.scale + plus b * 10 ^ a.scale in
    let down = minus a * 10 ^ b.scale + minus b * 10 ^ a.scale in
    round_float (record {
      negative = ltb up down;
      digits = if ltb up down then down - up else up - down;
      scale = a.scale + b.scale;
      whole = false;
    })

abbrev pub number : ℕ → Number
number n = record zero_number { digits = n }

-- 1e-6, exact as Go's constants are, and the float64 of -1e-6, for `ZoneRect.valid`.
abbrev pub normalized_epsilon : Number
normalized_epsilon = record { negative = false; digits = 1; scale = 6; whole = false }

abbrev pub minus_epsilon : Number
minus_epsilon = round_float (record { negative = true; digits = 1; scale = 6; whole = false })

unfoldable pub valid_point : Point → Bool
valid_point p =
    le_number (number 0) p.x
    && le_number p.x (number 1)
    && le_number (number 0) p.y
    && le_number p.y (number 1)

unfoldable pub valid_rect : ZoneRect → Bool
valid_rect r =
    if le_number r.width (number 0) || le_number r.height (number 0)
    then false
    else if lt_number r.x minus_epsilon || lt_number r.y minus_epsilon
    then false
    else le_number (add_number r.x r.width) (add_number (number 1) normalized_epsilon)
      && le_number (add_number r.y r.height) (add_number (number 1) normalized_epsilon)

abbrev pub or_error : {A : Type 0} → Option A → String → Result A
or_error none e = err e
or_error (some a) e = ok a

-- A payload is decoded, then checked.
unfoldable pub check_decoded :
    {A : Type 0} → A → Reader A → String → (A → Result (Unit {0})) → Option Json → Result (Unit {0})
check_decoded fresh r e checks raw = or_error (unmarshal fresh r raw) e >>= checks

unfoldable pub map_checks : MapPayload → Result (Unit {0})
map_checks p = refuse_if (p.id == "" || p.name == "") "invalid map payload"

abbrev pub bad_player : Option Point → Bool
bad_player none = false
bad_player (some p) = not (valid_point p)

-- The loop over the teammates and the others.
unfoldable pub check_points : List Point → Result (Unit {0})
check_points [] = ok tt
check_points (p ∷ ps) =
    let rest = check_points ps in if not (valid_point p) then err "invalid marker point" else rest

unfoldable pub frame_checks : FramePayload → Result (Unit {0})
frame_checks p = do
  refuse_if (bad_player p.player) "invalid player point"
  check_points (p.teammates.items ++ p.others.items)

-- The pointers are compared with nil first, and read only where they are set.
abbrev pub bad_exp_values : Option ℤ → Option Number → Option Number → Bool
bad_exp_values (some e) (some p) (some c) =
    is_neg e
    || lt_number p (number 0)
    || lt_number (number 100) p
    || lt_number c (number 0)
    || lt_number (number 1) c
bad_exp_values _ _ _ = false

unfoldable pub exp_checks : ExpPayload → Result (Unit {0})
exp_checks p =
    let reading = is_some p.current_exp || is_some p.percent || is_some p.confidence in
    let whole = is_some p.current_exp && is_some p.percent && is_some p.confidence in
    do
      refuse_if (reading && not whole) "incomplete EXP payload"
      refuse_if (bad_exp_values p.current_exp p.percent p.confidence) "invalid EXP values"

abbrev pub bad_confidence : Option Number → Bool
bad_confidence none = false
bad_confidence (some c) = lt_number c (number 0) || lt_number (number 1) c

unfoldable pub rune_checks : RunePayload → Result (Unit {0})
rune_checks p = do
  refuse_if (not (is_pos p.detected_at)) "invalid rune timestamp"
  refuse_if (bad_confidence p.confidence) "invalid rune confidence"
  refuse_if (not p.detected && is_some p.confidence) "cleared rune must not carry confidence"

unfoldable pub verification_checks : VerificationPayload → Result (Unit {0})
verification_checks p = do
  refuse_if (not (is_pos p.detected_at)) "invalid verification timestamp"
  refuse_if (bad_confidence p.confidence) "invalid verification confidence"
  refuse_if (not p.detected && is_some p.confidence)
      "cleared verification must not carry confidence"

abbrev pub bad_rect : Option ZoneRect → Bool
bad_rect none = false
bad_rect (some r) = not (valid_rect r)

unfoldable pub zone_checks : ZonePayload → Result (Unit {0})
zone_checks p = do
  refuse_if (not (is_pos p.detected_at)) "invalid zone timestamp"
  refuse_if (bad_rect p.rect) "invalid zone rect"
  refuse_if (p.outside && not (is_some p.rect)) "zone breach must carry the rect"

abbrev pub known_mode : String → Bool
known_mode m = m == "dead" || m == "live" || m == "follow_heal" || m == "monitor" || m == "temple"

unfoldable pub client_state_checks : ClientStatePayload → Result (Unit {0})
client_state_checks p = refuse_if (not (known_mode p.mode)) "invalid client mode"

-- `len` counts bytes, `count` the runes.
abbrev pub bad_receipt : String → Bool
bad_receipt r = ltb 0 (len r) && (ltb (len r) 8 || ltb 64 (len r))

abbrev pub bad_role_name : String → Bool
bad_role_name n = count n == 0 || ltb 24 (count n)

unfoldable pub team_joined_checks : TeamJoinedPayload → Result (Unit {0})
team_joined_checks p =
    refuse_if (not (is_pos p.team_id) || bad_role_name p.role_name || bad_receipt p.receipt_id)
      "invalid team joined payload"

-- The inner switch of the rope party progress, over the fields that it reads.
unfoldable pub event_checks : String → ℤ → String → Result (Unit {0})
event_checks event cycle_id role_name =
    if event == "team_created"
    then refuse_if (not (role_name == "")) "team created progress must not carry role name"
    else if event == "team_disbanded"
    then refuse_if (not (role_name == "")) "team disbanded progress must not carry role name"
    else if event == "boss_cycle_disbanded"
    then refuse_if (not (is_pos cycle_id) || not (role_name == ""))
        "invalid boss cycle disbanded progress"
    else if event == "buff_due"
    then refuse_if (not (int_beq cycle_id (pos 0)) || not (role_name == ""))
        "buff due progress must not carry cycle or role name"
    else if event == "boss_joined" || event == "buff_completed" || event == "boss_kicked"
    then refuse_if (not (is_pos cycle_id) || not (role_name == ""))
        "invalid boss buff cycle progress"
    else if event == "invitation_sent"
    then refuse_if (bad_role_name role_name) "invalid invited role name"
    else err "invalid rope party progress event"

unfoldable pub progress_checks : RopePartyProgressPayload → Result (Unit {0})
progress_checks p = do
  refuse_if (not (is_pos p.team_id) || bad_receipt p.receipt_id)
      "invalid rope party progress payload"
  event_checks p.event p.cycle_id p.role_name

-- The outer switch.
unfoldable pub check_payload : String → Option Json → Result (Unit {0})
check_payload type raw =
    if type == "map"
    then check_decoded zero_map read_map "invalid map payload" map_checks raw
    else if type == "frame"
    then check_decoded zero_frame read_frame "invalid frame payload" frame_checks raw
    else if type == "status"
    then check_decoded zero_status read_status "invalid status payload" (λ p. ok tt) raw
    else if type == "exp"
    then check_decoded zero_exp read_exp "invalid EXP payload" exp_checks raw
    else if type == "rune"
    then check_decoded zero_rune read_rune "invalid rune payload" rune_checks raw
    else if type == "verification"
    then check_decoded zero_verification read_verification "invalid verification payload"
        verification_checks raw
    else if type == "zone"
    then check_decoded zero_zone read_zone "invalid zone payload" zone_checks raw
    else if type == "client_state"
    then check_decoded zero_client_state read_client_state "invalid client state payload"
        client_state_checks raw
    else if type == "team_joined"
    then check_decoded zero_team_joined read_team_joined "invalid team joined payload"
        team_joined_checks raw
    else if type == "rope_party_progress"
    then check_decoded zero_progress read_progress "invalid rope party progress payload"
        progress_checks raw
    else err "unsupported message type"

-- A message as it arrives: its length, and the value that its bytes encode if they are JSON.
pub record Message : Type 0 where
  pub size : ℕ
  pub body : Option Json

unfoldable pub validate_envelope : Message → Result Envelope
validate_envelope m = do
  refuse_if (m.size == 0 || ltb max_message_bytes m.size) "message size is invalid"
  envelope ← or_error (unmarshal zero_envelope read_envelope m.body) "invalid JSON message"
  check_payload envelope.type envelope.payload
  ok envelope
