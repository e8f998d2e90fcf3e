-- ===== src/Protocol/Envelopes.antt =====
-- `ValidateEnvelope` as a whole, against a description of the messages that devices may send.
use monitor_backend.Base.{
  ℕ, ◌≤◌, ◌≡◌, refl, ◌≢◌, ◌↔◌, inl, inr, String, true, false, Option, none, some, arith, eq_iff,
  Bool-cases, subst, sym, ◌==◌, string_eq, nat_eq, ltb, ◌||◌,
}
use monitor_backend.Base.Int.{is_pos}
use monitor_backend.Base.Results.{Result, ok, ◌>>=◌, ◌>>◌, refuse_if}
use monitor_backend.Json.{Json, unmarshal}
use monitor_backend.Protocol.{
  MapPayload, StatusPayload, ClientStatePayload, TeamJoinedPayload, RopePartyProgressPayload,
  Envelope, max_message_bytes, zero_map, zero_frame, zero_status, zero_client_state,
  zero_team_joined, zero_progress, zero_exp, zero_rune, zero_verification, zero_zone, zero_envelope,
  read_map, read_frame, read_status, read_client_state, read_team_joined, read_progress, read_exp,
  read_rune, read_verification, read_zone, read_envelope,
}
use monitor_backend.Protocol.Validate.{
  or_error, map_checks, client_state_checks, team_joined_checks, progress_checks, check_payload,
  Message, validate_envelope,
}
use monitor_backend.Protocol.Events.{
  IsRoleName, IsReceipt, ValidEvent, event_checks_sound, event_checks_complete,
}
use monitor_backend.Protocol.Accepted.{check_decoded_iff, frame_checks_iff, exp_checks_iff}
use monitor_backend.Protocol.Alarms.{rune_checks_iff, zone_checks_iff, verification_checks_iff}
use monitor_backend.Protocol.Kinds.{
  IsMode, Allowed, map, frame, status, exp, rune, verification, zone, client_state, team_joined,
  progress,
}

map_checks_iff : (p : MapPayload) → (map_checks p ≡ ok tt) ↔ ((p.id ≢ "") × (p.name ≢ ""))
unfolding map_checks
map_checks_iff p = ground (arith, eq_iff p.id "", eq_iff p.name "")

client_state_checks_iff : (p : ClientStatePayload) → (client_state_checks p ≡ ok tt) ↔ IsMode p.mode
unfolding client_state_checks
client_state_checks_iff p = ground (
  arith,
  eq_iff p.mode "dead",
  eq_iff p.mode "live",
  eq_iff p.mode "follow_heal",
  eq_iff p.mode "monitor",
  eq_iff p.mode "temple",
)

team_joined_checks_iff :
    (p : TeamJoinedPayload)
    → (team_joined_checks p ≡ ok tt)
      ↔ ((is_pos p.team_id ≡ true) × IsRoleName p.role_name × IsReceipt p.receipt_id)
unfolding team_joined_checks
team_joined_checks_iff p = ground arith

progress_checks_iff :
    (p : RopePartyProgressPayload)
    → (progress_checks p ≡ ok tt) ↔ (
        (is_pos p.team_id ≡ true)
        × IsReceipt p.receipt_id
        × ValidEvent p.event p.cycle_id p.role_name)
unfolding progress_checks
progress_checks_iff p = (
  λ h. (ground arith, ground arith, event_checks_sound _ _ _ (ground arith)),
  λ v. ground (arith, event_checks_complete _ _ _ v.2),
)

status_checks_iff : (p : StatusPayload) → ◌≡◌ {A = Result (Unit {0})} (ok tt) (ok tt) ↔ Unit {0}
status_checks_iff p = (λ h. tt, λ v. refl)

check_payload_complete :
    (type : String) (raw : Option Json) → Allowed type raw → check_payload type raw ≡ ok tt
unfolding check_payload
check_payload_complete type raw (map e p d v) =
    rw e ((check_decoded_iff zero_map read_map _ _ raw).1 (p, d, (map_checks_iff p).1 v))
check_payload_complete type raw (frame e p d v) =
    rw e ((check_decoded_iff zero_frame read_frame _ _ raw).1 (p, d, (frame_checks_iff p).1 v))
check_payload_complete type raw (status e p d v) =
    rw e ((check_decoded_iff zero_status read_status _ _ raw).1 (p, d, (status_checks_iff p).1 v))
check_payload_complete type raw (exp e p d v) =
    rw e ((check_decoded_iff zero_exp read_exp _ _ raw).1 (p, d, (exp_checks_iff p).1 v))
check_payload_complete type raw (rune e p d v) =
    rw e ((check_decoded_iff zero_rune read_rune _ _ raw).1 (p, d, (rune_checks_iff p).1 v))
check_payload_complete type raw (verification e p d v) = rw e (
    (check_decoded_iff zero_verification read_verification _ _ raw).1
      (p, d, (verification_checks_iff p).1 v))
check_payload_complete type raw (zone e p d v) =
    rw e ((check_decoded_iff zero_zone read_zone _ _ raw).1 (p, d, (zone_checks_iff p).1 v))
check_payload_complete type raw (client_state e p d v) = rw e (
    (check_decoded_iff zero_client_state read_client_state _ _ raw).1
      (p, d, (client_state_checks_iff p).1 v))
check_payload_complete type raw (team_joined e p d v) = rw e (
    (check_decoded_iff zero_team_joined read_team_joined _ _ raw).1
      (p, d, (team_joined_checks_iff p).1 v))
check_payload_complete type raw (progress e p d v) =
    rw e (
      (check_decoded_iff zero_progress read_progress _ _ raw).1 (p, d, (progress_checks_iff p).1 v))

-- One case of the outer switch.
type_case :
    (x type : String) (raw : Option Json)
    → check_payload type raw ≡ ok tt
    → (check_payload x raw ≡ ok tt → Allowed x raw)
    → ((type == x) ≡ false → Allowed type raw)
    → Allowed type raw
type_case x type raw h found other = elim (Bool-cases (type == x)) [
  | inl e ↦
      subst (λ v. check_payload v raw ≡ ok tt → Allowed v raw) (sym ((eq_iff type x).0 e)) found h
  | inr n ↦ other n
]

check_payload_sound :
    (type : String) (raw : Option Json) → check_payload type raw ≡ ok tt → Allowed type raw
unfolding check_payload
check_payload_sound type raw h =
    type_case "map" type raw h
      (λ k.
        let (p, d, c) = (check_decoded_iff zero_map read_map _ _ raw).0 k in
        map refl p d ((map_checks_iff p).0 c))
      λ n0.
        type_case "frame" type raw h
          (λ k.
            let (p, d, c) = (check_decoded_iff zero_frame read_frame _ _ raw).0 k in
            frame refl p d ((frame_checks_iff p).0 c))
          λ n1.
            type_case "status" type raw h
              (λ k.
                let (p, d, c) = (check_decoded_iff zero_status read_status _ _ raw).0 k in
                status refl p d ((status_checks_iff p).0 c))
              λ n2.
                type_case "exp" type raw h
                  (λ k.
                    let (p, d, c) = (check_decoded_iff zero_exp read_exp _ _ raw).0 k in
                    exp refl p d ((exp_checks_iff p).0 c))
                  λ n3.
                    type_case "rune" type raw h
                      (λ k.
                        let (p, d, c) = (check_decoded_iff zero_rune read_rune _ _ raw).0 k in
                        rune refl p d ((rune_checks_iff p).0 c))
                      λ n4.
                        type_case "verification" type raw h
                          (λ k.
                            let (p, d, c) =
                              (check_decoded_iff zero_verification read_verification _ _ raw).0 k in
                            verification refl p d ((verification_checks_iff p).0 c))
                          λ n5.
                            type_case "zone" type raw h
                              (λ k.
                                let (p, d, c) =
                                  (check_decoded_iff zero_zone read_zone _ _ raw).0 k in
                                zone refl p d ((zone_checks_iff p).0 c))
                              λ n6.
                                type_case "client_state" type raw h
                                  (λ k.
                                    let (p, d, c) =
                                      (check_decoded_iff zero_client_state read_client_state _ _
                                          raw).0
                                        k in
                                    client_state refl p d ((client_state_checks_iff p).0 c))
                                  λ n7.
                                    type_case "team_joined" type raw h
                                      (λ k.
                                        let (p, d, c) =
                                          (check_decoded_iff zero_team_joined read_team_joined _ _
                                              raw).0
                                            k in
                                        team_joined refl p d ((team_joined_checks_iff p).0 c))
                                      λ n8.
                                        type_case "rope_party_progress" type raw h
                                          (λ k.
                                            let (p, d, c) =
                                              (check_decoded_iff zero_progress read_progress _ _
                                                  raw).0
                                                k in
                                            progress refl p d ((progress_checks_iff p).0 c))
                                          λ n9. absurd (ground arith)

-- The message is JSON for `e`, of a length within the limit, and `e` is allowed.
pub record IsAllowed (m : Message) (e : Envelope) : Type 0 where
  pub filled : 1 ≤ m.size
  pub bounded : m.size ≤ 16384
  pub decoded : unmarshal zero_envelope read_envelope m.body ≡ some e
  pub allowed : Allowed e.type e.payload

-- The steps of `ValidateEnvelope` after the message is decoded.
abbrev validated : ℕ → Option Envelope → Result Envelope
validated size o = do
  refuse_if (size == 0 || ltb max_message_bytes size) "message size is invalid"
  envelope ← or_error o "invalid JSON message"
  check_payload envelope.type envelope.payload
  ok envelope

validated_sound :
    (size : ℕ) (o : Option Envelope) (e : Envelope)
    → validated size o ≡ ok e
    → (1 ≤ size) × (size ≤ 16384) × (o ≡ some e) × (check_payload e.type e.payload ≡ ok tt)
validated_sound size none e h = absurd (ground arith)
validated_sound size (some d) e h = ground arith

validated_complete :
    (size : ℕ) (e : Envelope)
    → 1 ≤ size
    → size ≤ 16384
    → check_payload e.type e.payload ≡ ok tt
    → validated size (some e) ≡ ok e
validated_complete size e a b c = ground arith

-- `ValidateEnvelope` returns the envelope `e` of a message exactly when the message has 1 to 16384
-- bytes, is JSON for `e`, and `e` is one of the ten kinds that a device may send with a payload
-- that meets the condition of its kind; every other message is refused. Coordinates, percentages and
-- confidences are rounded to float64 when they are read.
pub validate_envelope_iff :
    (m : Message) (e : Envelope) → (validate_envelope m ≡ ok e) ↔ IsAllowed m e
unfolding validate_envelope
validate_envelope_iff m e = (
  λ h.
      let (a, b, d, c) = validated_sound m.size _ e h in
      record { filled = a; bounded = b; decoded = d; allowed = check_payload_sound _ _ c },
  λ v.
      rw v.decoded
        (validated_complete m.size e v.filled v.bounded (check_payload_complete _ _ v.allowed)),
)
