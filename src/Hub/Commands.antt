-- ===== src/Hub/Commands.antt =====
-- `SendCommand`, `disconnectDevice` and its two callers.
use monitor_backend.Base.{
  ℕ, zero, suc, String, Bool, true, false, not, ◌||◌, Option, none, some, List, [], ◌∷◌, ◌++◌,
  if◌then◌else◌, string_eq, lookup, ltb, length,
}
use monitor_backend.Base.Int.{pos}
use monitor_backend.Protocol.{ClientCommand}
use monitor_backend.Hub.{Hub, Room, Frame, command, hang_up, set_room}

abbrev pub controls_capacity : ℕ
controls_capacity = 64

abbrev pub drop : ℕ → List Frame → List Frame
drop zero q = q
drop (suc n) [] = []
drop (suc n) (f ∷ q) = drop n q

-- The select with the two-second timer. A channel with room takes the command at once. A full one
-- takes it if the connection's handler receives a frame in time: it receives `taken` of them.
abbrev pub enqueue : ℕ → Frame → List Frame → Option (List Frame)
enqueue taken f q =
    if ltb (length q) controls_capacity
    then some (q ++ (f ∷ []))
    else if ltb 0 taken
    then some (drop taken q ++ (f ∷ []))
    else some q

abbrev pub has_room : ℕ → List Frame → Bool
has_room taken q = ltb (length q) controls_capacity || ltb 0 taken

abbrev pub send_to_room : String → ClientCommand → ℕ → Room → Option (List Frame) → Hub → Hub × Bool
send_to_room session c taken r none h = (h, false)
send_to_room session c taken r (some q) h = if not r.connected then (h, false) else (
  set_room session (record r { controls = enqueue taken (command c) q }) h,
  has_room taken q,
)

unfoldable pub send_command : String → ClientCommand → ℕ → Hub → Hub × Bool
send_command session c taken h = elim (lookup session h.rooms) [
  | none ↦ (h, false)
  | some r ↦ send_to_room session c taken r r.controls h
]

abbrev pub blank_command : ClientCommand
blank_command = record {
  type = "command";
  action = "";
  reason = "";
  team_id = pos 0;
  is_leader = false;
  first_creation = false;
  role_name = "";
  target_role_name = "";
  cycle_id = pos 0;
  receipt_id = "";
  invite_role_names = [];
}

-- The channel is emptied, so the command and the nil fit.
abbrev pub disconnect_room :
    String → String → String → Room → Option (List Frame) → Hub → Hub × Bool
disconnect_room session action reason r none h = (h, false)
disconnect_room session action reason r (some q) h = if not r.connected then (h, false) else (
  set_room session
      (record r {
        controls =
            some
              (command (record blank_command { action = action; reason = reason }) ∷ hang_up ∷ []);
      })
      h,
  true,
)

unfoldable pub disconnect : String → String → String → Hub → Hub × Bool
disconnect session action reason h = elim (lookup session h.rooms) [
  | none ↦ (h, false)
  | some r ↦ disconnect_room session action reason r r.controls h
]

unfoldable pub disconnect_device : String → Hub → Hub × Bool
unfolding disconnect
disconnect_device session h = disconnect session "unbind" "" h

unfoldable pub kick_device : String → Hub → Hub × Bool
unfolding disconnect
kick_device session h = disconnect session "kick" "管理员已将当前客户端踢下线" h
