-- ===== src/Protocol/Tests.antt =====
-- Messages that `ValidateEnvelope` passes and refuses, and the theorems at these.
use monitor_backend.Base.{ℕ, ◌*◌, ◌^◌, [], ◌∷◌, ◌≡◌, refl, true, false, some, string_eq, ◌↔◌}
use monitor_backend.Base.Results.{ok, err}
use monitor_backend.Json.{
  Number, round_float, Json, Members, arr, nil, cons, read_slice, unmarshal, num, str, bool, obj,
  end, member, unmarshal_into, read_struct,
}
use monitor_backend.Protocol.{
  Envelope, read_client_state, zero_client_state, read_envelope, read_rune, read_map, read_frame,
  zero_frame, read_point,
}
use monitor_backend.Protocol.Validate.{
  Message, validate_envelope, check_payload, number, check_decoded, rune_checks, map_checks,
  le_number, lt_number, add_number,
}
use monitor_backend.Protocol.Envelopes.{IsAllowed, validate_envelope_iff}

abbrev rune_alert : Json
rune_alert = obj (
    member "detected" (bool true) (
      member "confidence" (num (record { negative = false; digits = 9; scale = 1; whole = false }))
        (member "detectedAt" (num (number 1700000000000)) end)))

abbrev rune_message : Message
rune_message = record {
  size = 120;
  body = some (
      obj (
        member "type" (str "rune")
          (member "sequence" (num (number 4)) (member "payload" rune_alert end))));
}

abbrev rune_envelope : Envelope
rune_envelope = record { type = "rune"; sequence = 4; payload = some rune_alert }

rune_message_passes : validate_envelope rune_message ≡ ok rune_envelope
unfolding validate_envelope read_envelope read_struct read_rune check_payload check_decoded
    rune_checks le_number lt_number
rune_message_passes = refl

-- A device may not send a gain.
gain_message_fails :
    validate_envelope (record {
      size = 40;
      body = some (obj (member "type" (str "gain") (member "payload" (obj end) end)));
    })
    ≡ err "unsupported message type"
unfolding validate_envelope read_envelope read_struct check_payload
gain_message_fails = refl

abbrev map_of : Json → Members → Json
map_of ratio rest =
    obj (member "id" (str "m") (member "name" (str "M") (member "aspectRatio" ratio rest)))

-- The number 1e400 is no float64.
huge_ratio_fails :
    check_payload "map" (
      some (
        map_of
          (num (record { negative = false; digits = 10 ^ 400; scale = 0; whole = false }))
          end))
    ≡ err "invalid map payload"
unfolding check_payload check_decoded map_checks read_map read_struct
huge_ratio_fails = refl

abbrev decimal : ℕ → ℕ → Number
decimal n s = record { negative = false; digits = n; scale = s; whole = false }

-- The float64 of 0.1 is 3602879701896397 / 2 ^ 55.
tenth_is_rounded : (round_float (decimal 1 1)).digits * 2 ^ 55 ≡ 3602879701896397 * 10 ^ 1074
unfolding round_float
tenth_is_rounded = refl

-- In float64, 0.1 + 0.2 is above 0.3, and 1e-400 is 0.
sum_is_rounded :
    le_number
      (add_number (round_float (decimal 1 1)) (round_float (decimal 2 1)))
      (round_float (decimal 3 1))
    ≡ false
unfolding round_float add_number le_number
sum_is_rounded = refl

tiny_is_zero : (round_float (decimal 1 400)).digits ≡ 0
unfolding round_float
tiny_is_zero = refl

-- Letter case does not matter in the name of a member.
other_case_reads :
    unmarshal zero_client_state read_client_state
      (some (obj (member "MODE" (str "temple") (member "Running" (bool true) end))))
    ≡ some (record { mode = "temple"; running = true })
unfolding read_client_state read_struct
other_case_reads = refl

abbrev one_point : Members → Json
one_point ms = arr (cons (obj ms) nil)

-- A second member of the name is decoded over the elements of the first.
repeated_array_reads :
    unmarshal zero_frame read_frame (
      some (
        obj (
          member "others"
            (one_point (member "x" (num (number 3)) end))
            (member "others" (one_point (member "y" (num (number 4)) end)) end))))
    ≡ some (record zero_frame {
      others = record {
        items = record { x = round_float (number 3); y = round_float (number 4) } ∷ [];
        beyond = [];
      };
    })
unfolding read_frame read_point read_slice read_struct
repeated_array_reads = refl

validate_envelope_iff_example :
    (validate_envelope rune_message ≡ ok rune_envelope) ↔ IsAllowed rune_message rune_envelope
validate_envelope_iff_example = validate_envelope_iff rune_message rune_envelope

abbrev started : Json
started = obj (member "running" (bool true) (member "mode" (str "monitor") end))

started-decodes :
    (unmarshal_into read_client_state (some started) zero_client_state).0
    ≡ record { mode = "monitor"; running = true }
unfolding read_client_state read_struct
started-decodes = refl
