-- ===== src/Protocol/Reports.antt =====
-- How the JSON of the other payloads and of the envelope is read.
use monitor_backend.Base.{String, true, if◌then◌else◌}
use monitor_backend.Base.Int.{pos}
use monitor_backend.Json.{
  names, Reader, read_string, read_bool, read_float, read_int64, read_pointer, read_struct,
  read_uint64, read_raw,
}
use monitor_backend.Protocol.Types.{
  ClientStatePayload, Envelope, ExpPayload, RopePartyProgressPayload, RunePayload, StatusPayload,
  TeamJoinedPayload, VerificationPayload, ZonePayload, ZoneRect, zero_number, zero_rect,
}
use monitor_backend.Protocol.Shapes.{with_field}

status_field : String → Reader StatusPayload
unfolding names read_float
status_field key j p =
    if names key "online"
    then with_field (read_bool) p.online (λ v. record p { online = v }) j
    else if names key "message"
    then with_field (read_string) p.message (λ v. record p { message = v }) j
    else (p, true)

unfoldable pub read_status : Reader StatusPayload
unfolding status_field
read_status = read_struct status_field

unfoldable pub client_state_field : String → Reader ClientStatePayload
unfolding names read_float
client_state_field key j p =
    if names key "mode"
    then with_field (read_string) p.mode (λ v. record p { mode = v }) j
    else if names key "running"
    then with_field (read_bool) p.running (λ v. record p { running = v }) j
    else (p, true)

unfoldable pub read_client_state : Reader ClientStatePayload
unfolding client_state_field
read_client_state = read_struct client_state_field

team_joined_field : String → Reader TeamJoinedPayload
unfolding names read_float
team_joined_field key j p =
    if names key "teamId"
    then with_field (read_int64) p.team_id (λ v. record p { team_id = v }) j
    else if names key "roleName"
    then with_field (read_string) p.role_name (λ v. record p { role_name = v }) j
    else if names key "receiptId"
    then with_field (read_string) p.receipt_id (λ v. record p { receipt_id = v }) j
    else (p, true)

unfoldable pub read_team_joined : Reader TeamJoinedPayload
unfolding team_joined_field
read_team_joined = read_struct team_joined_field

progress_field : String → Reader RopePartyProgressPayload
unfolding names read_float
progress_field key j p =
    if names key "teamId"
    then with_field (read_int64) p.team_id (λ v. record p { team_id = v }) j
    else if names key "cycleId"
    then with_field (read_int64) p.cycle_id (λ v. record p { cycle_id = v }) j
    else if names key "event"
    then with_field (read_string) p.event (λ v. record p { event = v }) j
    else if names key "roleName"
    then with_field (read_string) p.role_name (λ v. record p { role_name = v }) j
    else if names key "receiptId"
    then with_field (read_string) p.receipt_id (λ v. record p { receipt_id = v }) j
    else (p, true)

unfoldable pub read_progress : Reader RopePartyProgressPayload
unfolding progress_field
read_progress = read_struct progress_field

exp_field : String → Reader ExpPayload
unfolding names read_float
exp_field key j p =
    if names key "currentEXP"
    then with_field (read_pointer (pos 0) read_int64) p.current_exp
        (λ v. record p { current_exp = v }) j
    else if names key "percent"
    then with_field (read_pointer zero_number read_float) p.percent (λ v. record p { percent = v })
        j
    else if names key "confidence"
    then with_field (read_pointer zero_number read_float) p.confidence
        (λ v. record p { confidence = v }) j
    else if names key "recognitionMethod"
    then with_field (read_string) p.recognition_method (λ v. record p { recognition_method = v }) j
    else if names key "status"
    then with_field (read_string) p.status (λ v. record p { status = v }) j
    else if names key "recognizedAt"
    then with_field (read_int64) p.recognized_at (λ v. record p { recognized_at = v }) j
    else (p, true)

unfoldable pub read_exp : Reader ExpPayload
unfolding exp_field
read_exp = read_struct exp_field

rune_field : String → Reader RunePayload
unfolding names read_float
rune_field key j p =
    if names key "detected"
    then with_field (read_bool) p.detected (λ v. record p { detected = v }) j
    else if names key "confidence"
    then with_field (read_pointer zero_number read_float) p.confidence
        (λ v. record p { confidence = v }) j
    else if names key "detectedAt"
    then with_field (read_int64) p.detected_at (λ v. record p { detected_at = v }) j
    else (p, true)

unfoldable pub read_rune : Reader RunePayload
unfolding rune_field
read_rune = read_struct rune_field

verification_field : String → Reader VerificationPayload
unfolding names read_float
verification_field key j p =
    if names key "detected"
    then with_field (read_bool) p.detected (λ v. record p { detected = v }) j
    else if names key "confidence"
    then with_field (read_pointer zero_number read_float) p.confidence
        (λ v. record p { confidence = v }) j
    else if names key "detectedAt"
    then with_field (read_int64) p.detected_at (λ v. record p { detected_at = v }) j
    else (p, true)

unfoldable pub read_verification : Reader VerificationPayload
unfolding verification_field
read_verification = read_struct verification_field

rect_field : String → Reader ZoneRect
unfolding names read_float
rect_field key j p =
    if names key "x"
    then with_field (read_float) p.x (λ v. record p { x = v }) j
    else if names key "y"
    then with_field (read_float) p.y (λ v. record p { y = v }) j
    else if names key "width"
    then with_field (read_float) p.width (λ v. record p { width = v }) j
    else if names key "height"
    then with_field (read_float) p.height (λ v. record p { height = v }) j
    else (p, true)

unfoldable pub read_rect : Reader ZoneRect
unfolding rect_field
read_rect = read_struct rect_field

zone_field : String → Reader ZonePayload
unfolding names read_float
zone_field key j p =
    if names key "outside"
    then with_field (read_bool) p.outside (λ v. record p { outside = v }) j
    else if names key "rect"
    then with_field (read_pointer zero_rect read_rect) p.rect (λ v. record p { rect = v }) j
    else if names key "detectedAt"
    then with_field (read_int64) p.detected_at (λ v. record p { detected_at = v }) j
    else (p, true)

unfoldable pub read_zone : Reader ZonePayload
unfolding zone_field
read_zone = read_struct zone_field

envelope_field : String → Reader Envelope
unfolding names read_float
envelope_field key j p =
    if names key "type"
    then with_field read_string p.type (λ v. record p { type = v }) j
    else if names key "sequence"
    then with_field read_uint64 p.sequence (λ v. record p { sequence = v }) j
    else if names key "payload"
    then with_field read_raw p.payload (λ v. record p { payload = v }) j
    else (p, true)

unfoldable pub read_envelope : Reader Envelope
unfolding envelope_field
read_envelope = read_struct envelope_field
