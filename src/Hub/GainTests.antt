-- ===== src/Hub/GainTests.antt =====
-- A status message of a device, published into an empty hub.
use monitor_backend.Base.{◌≡◌, refl, true, some, string_eq}
use monitor_backend.Base.Results.{ok}
use monitor_backend.Json.{Json, num, str, bool, obj, end, member, read_struct}
use monitor_backend.Protocol.{Envelope, read_envelope, read_status}
use monitor_backend.Protocol.Validate.{
  Message, validate_envelope, check_payload, check_decoded, number,
}
use monitor_backend.Hub.{room, new_hub}
use monitor_backend.Hub.Publishing.{publish}
use monitor_backend.Hub.Gains.{publish-latest_gain}

abbrev online : Json
online = obj (member "online" (bool true) end)

abbrev message : Message
message = record {
  size = 60;
  body = some (
      obj (
        member "type" (str "status")
          (member "sequence" (num (number 2)) (member "payload" online end))));
}

abbrev envelope : Envelope
envelope = record { type = "status"; sequence = 2; payload = some online }

message_passes : validate_envelope message ≡ ok envelope
unfolding validate_envelope read_envelope read_struct read_status check_payload check_decoded
message_passes = refl

publish-latest_gain_example :
    (room "a" (publish "a" envelope envelope 5 new_hub).0).latest_gain
    ≡ (room "a" new_hub).latest_gain
publish-latest_gain_example =
    publish-latest_gain message envelope envelope "a" 5 new_hub message_passes
