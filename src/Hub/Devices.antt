-- ===== src/Hub/Devices.antt =====
-- `AttachDevice`, its detach function, and `AttachPublisher`.
use monitor_backend.Base.{
  ℕ, String, Bool, true, false, ◌||◌, none, some, [], ◌==◌, string_eq, nat_eq, if◌then◌else◌,
  lookup, erase,
}
use monitor_backend.Hub.{
  Hub, Room, room, set_room, is_monitoring, broadcast_snapshot, notify_client_observers,
}

abbrev pub attached : ℕ → String → ℕ → Room → Room
attached user connection now r = record r {
  publisher = connection;
  user_id = user;
  controls = some [];
  connected = true;
  online = user == 0 || is_monitoring r.client_state;
  updated_at = now;
}

unfoldable pub attach_device : String → ℕ → String → ℕ → Hub → Hub
unfolding broadcast_snapshot notify_client_observers
attach_device session user connection now h =
    let r = broadcast_snapshot (attached user connection now (room session h)) in
    notify_client_observers user (set_room session r h)

unfoldable pub attach_publisher : String → String → ℕ → Hub → Hub
unfolding attach_device
attach_publisher session connection now h = attach_device session 0 connection now h

abbrev pub detached : ℕ → Room → Room
detached now r = record r {
  publisher = "";
  controls = none;
  connected = false;
  online = false;
  updated_at = now;
}

-- The claim goes only if it is this session's.
abbrev pub release_claim : String → ℕ → Hub → Hub
release_claim session user h = elim (lookup user h.active_monitors) [
  | none ↦ h
  | some holder ↦
      if holder == session then record h { active_monitors = erase user h.active_monitors } else h
]

-- The function that `AttachDevice` returns, with what it closes over, in its three parts. Rooms are never
-- removed, so the room that it holds is the session's. The first part holds the room's lock, and tells
-- whether it detached: a connection that was replaced detaches nothing.
unfoldable pub leave_room : String → String → ℕ → Hub → Hub × Bool
leave_room session connection now h =
    let r = room session h in
    if r.publisher == connection then (set_room session (detached now r) h, true) else (h, false)

-- The second part holds the hub's lock. It is run if the first detached and there is a user.
unfoldable pub release_left : String → ℕ → Hub → Hub
release_left session user h = if user == 0 then h else release_claim session user h

unfoldable pub announce_left : String → ℕ → Hub → Hub
unfolding broadcast_snapshot notify_client_observers
announce_left session user h =
    notify_client_observers user (set_room session (broadcast_snapshot (room session h)) h)

-- The parts, with no other call in between.
unfoldable pub detach_device : String → ℕ → String → ℕ → Hub → Hub
unfolding leave_room release_left announce_left
detach_device session user connection now h =
    let (left, did_detach) = leave_room session connection now h in
    announce_left session user (if did_detach then release_left session user left else left)
