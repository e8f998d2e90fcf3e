-- ===== src/Hub/Broadcasts.antt =====
-- Broadcasts of a room that overlap, at the channel of one viewer.
use monitor_backend.Base.{
  ℕ, zero, suc, ◌≡◌, ◌⊎◌, Bool, true, false, Option, none, some, List, [], ◌∷◌, ◌&&◌, ◌||◌, map,
}
use monitor_backend.Hub.{
  ViewerMessage, Stage, sending, draining, resending, finished, Sending, send_step,
}

-- One step of the broadcast at a position of the list; there is none past the end.
unfoldable pub run_step :
    ℕ → List Sending → Option ViewerMessage → List Sending × Option ViewerMessage
run_step n [] held = ([], held)
run_step zero (b ∷ bs) held = let (b', after) = send_step (b, held) in (b' ∷ bs, after)
run_step (suc n) (b ∷ bs) held = let (rest, after) = run_step n bs held in (b ∷ rest, after)

-- The steps of several broadcasts in the order of a schedule.
unfoldable pub run_steps :
    List ℕ → List Sending → Option ViewerMessage → List Sending × Option ViewerMessage
unfolding run_step
run_steps [] bs held = (bs, held)
run_steps (n ∷ ns) bs held = let (bs', after) = run_step n bs held in run_steps ns bs' after

abbrev pub start : ViewerMessage → Sending
start m = record { message = m; stage = sending }

abbrev messages : List Sending → List ViewerMessage
messages bs = map (λ (b : Sending). b.message) bs

abbrev pub OneOf : ViewerMessage → List ViewerMessage → Type 0
OneOf m [] = ⊥
OneOf m (n ∷ ns) = (m ≡ n) ⊎ OneOf m ns

abbrev is_early : Stage → Bool
is_early sending = true
is_early draining = true
is_early resending = false
is_early finished = false

abbrev is_resending : Stage → Bool
is_resending sending = false
is_resending draining = false
is_resending resending = true
is_resending finished = false

abbrev pub is_finished : Stage → Bool
is_finished sending = false
is_finished draining = false
is_finished resending = false
is_finished finished = true

all_early : List Sending → Bool
all_early [] = true
all_early (b ∷ bs) = is_early b.stage && all_early bs

some_resending : List Sending → Bool
some_resending [] = false
some_resending (b ∷ bs) = is_resending b.stage || some_resending bs

unfoldable pub all_finished : List Sending → Bool
all_finished [] = true
all_finished (b ∷ bs) = is_finished b.stage && all_finished bs

-- What a step may do: nothing that counts, a send, a receive, or a send that finds the channel full again.
data Effect (bs bs' : List Sending) (held after : Option ViewerMessage) : Type 0 where
  idle :
      after ≡ held
      → all_early bs' ≡ all_early bs
      → some_resending bs' ≡ some_resending bs
      → Effect bs bs' held after
  sent : (m : ViewerMessage) → after ≡ some m → OneOf m (messages bs) → Effect bs bs' held after
  drained : after ≡ none → some_resending bs' ≡ true → Effect bs bs' held after
  lost :
      (m : ViewerMessage)
      → held ≡ some m
      → after ≡ held
      → all_early bs ≡ false
      → Effect bs bs' held after

-- Nothing was received yet, or a message of one of the broadcasts is there, or it is about to be.
data Underway (bs : List Sending) (held : Option ViewerMessage) : Type 0 where
  untouched : all_early bs ≡ true → Underway bs held
  present : (m : ViewerMessage) → held ≡ some m → OneOf m (messages bs) → Underway bs held
  awaited : held ≡ none → some_resending bs ≡ true → Underway bs held
