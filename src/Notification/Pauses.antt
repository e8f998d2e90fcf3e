-- ===== src/Notification/Pauses.antt =====
-- The pause between two test notifications.
use monitor_backend.Base.{
  ℕ, ◌+◌, ◌*◌, ◌≡◌, ◌≢◌, refl, sym, ◌∙◌, ◌⊎◌, inl, inr, String, Bool, true, false, not, ◌&&◌, ◌||◌,
  Option, none, some, List, [], ◌∷◌, ◌++◌, string_eq, nat_eq, pair_eq, if◌then◌else◌, leb, arith,
  All, Bool-cases,
}
use monitor_backend.Base.Results.{Result, ok, err}
use monitor_backend.Notification.{second}
use monitor_backend.Notification.Settings.{Tables, Delivery}
use monitor_backend.Notification.Deliveries.{
  Attempt, push_to, record_delivery, delivery_of, later_of, is_test_of, last_attempt, is_frequent,
  device_key, send_test_as, send_test, test_pause,
}

-- Every recorded notification of this kind is at least ten seconds old.
abbrev pub Paused : ℕ → String → ℕ → List Delivery → Type 0
Paused user event now ds =
    All
      (λ (d : Delivery).
        (not (is_test_of user event d) || leb (d.created_at + 10 * second) now) ≡ true)
      ds

later-frequent :
    (at now : ℕ) (o : Option ℕ)
    → is_frequent (later_of at o) now ≡ false
    → (leb (at + test_pause) now ≡ true) × (is_frequent o now ≡ false)
later-frequent at now none e = (ground arith, refl)
later-frequent at now (some t) e = (ground arith, ground arith)

last-Paused :
    (user : ℕ) (event : String) (now : ℕ) (ds : List Delivery)
    → is_frequent (last_attempt user event ds) now ≡ false
    → Paused user event now ds
unfolding last_attempt
last-Paused user event now [] e = tt
last-Paused user event now (d ∷ ds) e = elim (Bool-cases (is_test_of user event d)) [
  | inl t ↦
      let both =
        later-frequent d.created_at now (last_attempt user event ds) ((sym (rw t refl)) ∙ e) in
      (ground (arith, both.0), last-Paused user event now ds both.1)
  | inr n ↦ (ground arith, last-Paused user event now ds ((sym (rw n refl)) ∙ e))
]

-- What a test notification leaves of the recorded ones: at most one more, at its time.
abbrev pub Recorded : ℕ → List Delivery → List Delivery → Type 0
Recorded at before after =
    (after ≡ before) ⊎ ((d : Delivery) × (after ≡ before ++ (d ∷ [])) × (d.created_at ≡ at))

pushed-Recorded :
    (push : String → Result (Unit {0})) (a : Attempt) (user : ℕ) (event : String) (t : Tables)
    → (r : Result String)
    → Recorded a.recorded_at t.deliveries (push_to push a user event t r).0.deliveries
unfolding record_delivery
pushed-Recorded push a user event t (err why) = inl refl
pushed-Recorded push a user event t (ok key) = go a.records
  where
    at :
        (r : Result (Unit {0}))
        → (delivery_of user event a.recorded_at r).created_at ≡ a.recorded_at
    at (ok x) = refl
    at (err why) = refl

    go :
        (b : Bool)
        → Recorded a.recorded_at t.deliveries
            (if b
              then record t {
                deliveries = t.deliveries ++ (delivery_of user event a.recorded_at (push key) ∷ []);
              }
              else t).deliveries
    go true = inr (delivery_of user event a.recorded_at (push key), refl, at (push key))
    go false = inl refl

-- A test notification whose query of the last one succeeds, and which is not refused as too frequent, comes at
-- least ten seconds after every recorded one of the account. It records at most one, at the time of the record.
pub send_test-Paused :
    (decrypt : String → Result String) (push : String → Result (Unit {0})) (a : Attempt) (user : ℕ)
    → (t : Tables) → a.reads_last ≡ true
    → (send_test decrypt push a user t).1 ≢ err "测试通知发送过于频繁，请稍后再试"
    → Paused user "test" a.now t.deliveries
      × Recorded a.recorded_at t.deliveries (send_test decrypt push a user t).0.deliveries
unfolding send_test send_test_as
send_test-Paused decrypt push a user t r d =
    elim (Bool-cases (a.reads_last && is_frequent (last_attempt user "test" t.deliveries) a.now)) [
      | inl f ↦ absurd (d (rw f refl))
      | inr n ↦ (
        last-Paused user "test" a.now t.deliveries (ground arith),
        rw n (pushed-Recorded push a user "test" t (device_key decrypt a.selects_key user t)),
      )
    ]
