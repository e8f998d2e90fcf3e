-- ===== src/Hub/Queues.antt =====
-- The queue of commands of a connected device.
use monitor_backend.Base.{
  ℕ, zero, suc, ◌≤◌, ◌<◌, ◌≡◌, refl, sym, subst, ◌⊎◌, inl, inr, String, Bool, true, false, not,
  Option, some, List, [], ◌∷◌, ◌++◌, length, length-append, ltb, if◌then◌else◌, lookup, string_eq,
  arith, Bool-cases,
}
use monitor_backend.Protocol.{ClientCommand}
use monitor_backend.Hub.{Hub, Room, Frame, command, room, set_room}
use monitor_backend.Hub.Commands.{send_command, send_to_room, enqueue, has_room, drop}
use monitor_backend.Hub.Channels.{room-set_room}

length-drop-le : (n : ℕ) (q : List Frame) → length (drop n q) ≤ length q
length-drop-le zero q = omega arith
length-drop-le (suc n) [] = omega arith
length-drop-le (suc n) (f ∷ q) = omega (arith, length-drop-le n q)

length-drop-lt : (n : ℕ) (q : List Frame) → 0 < n → 0 < length q → length (drop n q) < length q
length-drop-lt zero q p k = absurd (omega arith)
length-drop-lt (suc n) [] p k = absurd (omega arith)
length-drop-lt (suc n) (f ∷ q) p k = omega (arith, length-drop-le n q)

-- What sending does to a queue of a connected device.
abbrev pub Sent : ClientCommand → ℕ → List Frame → Bool → Option (List Frame) → Type 0
Sent c taken q accepted o =
    (q' : List Frame) × (o ≡ some q')
    × (length q' ≤ 64)
    × (((accepted ≡ true)
          × (q' ≡ (if ltb (length q) 64 then q else drop taken q) ++ (command c ∷ [])))
        ⊎ ((accepted ≡ false) × (q' ≡ q) × (length q ≡ 64) × (taken ≡ 0)))

enqueue-Sent :
    (c : ClientCommand) (taken : ℕ) (q : List Frame)
    → length q ≤ 64
    → Sent c taken q (has_room taken q) (enqueue taken (command c) q)
enqueue-Sent c taken q b = elim (Bool-cases (ltb (length q) 64)) [
  | inl r ↦ rw r (
    q ++ (command c ∷ []),
    refl,
    ground (arith, length-append q (command c ∷ [])),
    inl (refl, refl),
  )
  | inr f ↦ elim (Bool-cases (ltb 0 taken)) [
    | inl t ↦
        rw (f, t)
          (
            drop taken q ++ (command c ∷ []),
            refl,
            ground (
              arith,
              length-append (drop taken q) (command c ∷ []),
              length-drop-lt taken q (ground arith) (ground arith),
            ),
            inl (refl, refl),
          )
    | inr t ↦ rw (f, t) (q, refl, b, inr (refl, refl, ground arith, ground arith))
  ]
]

-- A command to a connected device whose queue has at most 64 frames leaves it with at most 64. It is
-- accepted and stands at the end, behind the frames that were not received in the meantime, or the
-- queue was full, none was received, and the command is refused and the queue as before.
pub send_command-Sent :
    (session : String) (c : ClientCommand) (taken : ℕ) (h : Hub) (r : Room) (q : List Frame)
    → lookup session h.rooms ≡ some r
    → r.connected ≡ true
    → r.controls ≡ some q
    → length q ≤ 64
    → let (h', accepted) = send_command session c taken h in
      Sent c taken q accepted (room session h').controls
unfolding send_command
send_command-Sent session c taken h r q e k g b =
    rw (e, send_command)
      (subst
        (λ o.
          let (h', accepted) = send_to_room session c taken r o h in
          Sent c taken q accepted (room session h').controls)
        {x = some q} {y = r.controls} (sym g)
        (subst
          (λ (b : Bool).
            let out : Hub × Bool = if not b then (h, false) else (
              set_room session (record r { controls = enqueue taken (command c) q }) h,
              has_room taken q,
            ) in
            Sent c taken q out.1 (room session out.0).controls)
          (sym k)
          (subst (λ (x : Room). Sent c taken q (has_room taken q) x.controls)
            {x = record r { controls = enqueue taken (command c) q }}
            (sym (room-set_room session (record r { controls = enqueue taken (command c) q }) h))
            (enqueue-Sent c taken q b))))
