-- ===== src/Protocol/Merging.antt =====
-- Decoding a client state over an old one, as the hub does, against decoding it into a zero value,
-- as the validation and the monitor claim do.
use Prim.Native.String.{String}
use monitor_backend.Base.{
  ◌≡◌, refl, ◌⊎◌, inr, true, false, ◌&&◌, ◌==◌, string_eq, arith, eq_iff, Option, none, some,
}
use monitor_backend.Json.{
  Json, Members, null, bool, str, obj, end, member, read_members, read_struct, unmarshal,
  unmarshal_into,
}
use monitor_backend.Protocol.{
  ClientStatePayload, zero_client_state, client_state_field, read_client_state,
}

-- `f` is decoded from zero, `o` from another value, by the same members: each field is the same, or
-- no member gave it.
record Agrees (f o : ClientStatePayload) : Type 0 where
  modes : (f.mode ≡ o.mode) ⊎ (f.mode ≡ "")
  runs : (f.running ≡ o.running) ⊎ (f.running ≡ false)

field-Agrees :
    (key : String) (j : Json) (f o : ClientStatePayload)
    → Agrees f o
    → Agrees (client_state_field key j f).0 (client_state_field key j o).0
unfolding client_state_field
field-Agrees key (str s) f o a = ground arith
field-Agrees key (bool b) f o a = ground arith
field-Agrees key null f o a = ground arith
field-Agrees key _ f o a = ground arith

members-Agrees :
    (ms : Members) (f o : ClientStatePayload)
    → Agrees f o
    → Agrees (read_members client_state_field ms f).0 (read_members client_state_field ms o).0
unfolding read_members
members-Agrees end f o a = a
members-Agrees (member key j ms) f o a = members-Agrees ms _ _ (field-Agrees key j f o a)

json-Agrees :
    (j : Json) (o : ClientStatePayload)
    → Agrees (read_client_state j zero_client_state).0 (read_client_state j o).0
unfolding read_client_state read_struct
json-Agrees (obj ms) o = members-Agrees ms _ _ (record { modes = inr refl; runs = inr refl })
json-Agrees null o = record { modes = inr refl; runs = inr refl }
json-Agrees _ o = record { modes = inr refl; runs = inr refl }

agreed_monitoring :
    (f o : ClientStatePayload)
    → Agrees f o
    → (f.mode == "monitor" && f.running) ≡ true
    → (o.mode == "monitor" && o.running) ≡ true
agreed_monitoring f o a m =
    ground (arith, eq_iff f.mode "monitor", eq_iff o.mode "monitor", eq_iff "" "monitor")

-- If a message that decodes over the zero state gives a running monitor, then written over any old
-- state it gives a running monitor too.
pub merged_monitoring :
    (raw : Option Json) (o state : ClientStatePayload)
    → unmarshal zero_client_state read_client_state raw ≡ some state
    → (state.mode == "monitor" && state.running) ≡ true
    → let merged = (unmarshal_into read_client_state raw o).0 in
      (merged.mode == "monitor" && merged.running) ≡ true
merged_monitoring none o state d m = absurd (cc d)
merged_monitoring (some j) o state d m = agreed_monitoring _ _ (json-Agrees j o) (ground arith)
