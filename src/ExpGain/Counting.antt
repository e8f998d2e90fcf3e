-- ===== src/ExpGain/Counting.antt =====
-- The experience that a sequence of readings of one session adds up to.
use monitor_backend.Base.{
  ℕ, ◌+◌, ◌-◌, ◌^◌, ◌<◌, ◌≡◌, ap, ◌∙◌, String, some, List, [], ◌∷◌, string_eq, eq_iff, ltb, Map,
  lookup, insert, lookup-insert, arith, Bool-cases, inl, inr, All,
}
use monitor_backend.Base.Int.{ℤ, pos, add64, sub64, add64-pos, sub64-pos_of_le, is_pos-sub64}
use monitor_backend.ExpGain.{UserState, record_reading, gain_by, with_baseline}

-- Readings of a session, each with its time, sampled one after the other.
unfoldable pub readings : String → List (ℕ × ℕ) → UserState → UserState
unfolding record_reading
readings session [] s = s
readings session ((n, now) ∷ rest) s =
    readings session rest (record_reading session (some (pos n)) now s)

-- How much the readings rise from `previous` on, falls not counted.
abbrev pub rises : ℕ → List (ℕ × ℕ) → ℕ
rises previous [] = 0
rises previous ((n, now) ∷ rest) = (n - previous) + rises n rest

abbrev pub last_reading : ℕ → List (ℕ × ℕ) → ℕ
last_reading previous [] = previous
last_reading previous ((n, now) ∷ rest) = last_reading n rest

-- The counters stand at `total` and `daily`, and the session's baseline is `previous`.
pub record Stands (session : String) (previous total daily : ℕ) (s : UserState) : Type 0 where
  pub baseline : lookup session s.session_exp ≡ some (pos previous)
  pub totals : s.total_gained ≡ pos total
  pub dailies : s.daily_gained ≡ pos daily

baseline_self :
    (session : String) (z : ℤ) (m : Map String ℤ) → lookup session (insert session z m) ≡ some z
baseline_self session z m =
    ground (arith, lookup-insert session session z m, eq_iff session session)

gain_by-Stands :
    (session : String) (previous total daily n now : ℕ) (s : UserState)
    → previous < 2 ^ 63
    → n < 2 ^ 63
    → total + (n - previous) < 2 ^ 63
    → daily + (n - previous) < 2 ^ 63
    → Stands session n total daily s
    → Stands session n
        (total + (n - previous))
        (daily + (n - previous))
        (gain_by (sub64 (pos n) (pos previous)) now s)
gain_by-Stands session previous total daily n now s p q t d v = elim (Bool-cases (ltb previous n)) [
  | inl up ↦
      rw (is_pos-sub64 n previous q p, up, sub64-pos_of_le n previous q (ground arith))
        (record {
          baseline = v.baseline;
          totals =
              ap (λ z. add64 z (pos (n - previous))) v.totals ∙ add64-pos total (n - previous) t;
          dailies =
              ap (λ z. add64 z (pos (n - previous))) v.dailies ∙ add64-pos daily (n - previous) d;
        })
  | inr flat ↦
      rw (is_pos-sub64 n previous q p, flat)
        (record {
          baseline = v.baseline;
          totals = v.totals ∙ ap pos (ground arith);
          dailies = v.dailies ∙ ap pos (ground arith);
        })
]

pub record_reading-Stands :
    (session : String) (previous total daily n now : ℕ) (s : UserState)
    → previous < 2 ^ 63
    → n < 2 ^ 63
    → total + (n - previous) < 2 ^ 63
    → daily + (n - previous) < 2 ^ 63
    → Stands session previous total daily s
    → Stands session n
        (total + (n - previous))
        (daily + (n - previous))
        (record_reading session (some (pos n)) now s)
unfolding record_reading
record_reading-Stands session previous total daily n now s p q t d v = rw v.baseline (
    gain_by-Stands session previous total daily n now (with_baseline session (pos n) s) p q t d
      (record {
        baseline = baseline_self session (pos n) s.session_exp;
        totals = v.totals;
        dailies = v.dailies;
      }))

-- While previous reading and readings are below 2 ^ 63 and neither counter would reach it, the
-- readings of a session with a baseline add to the total and to the day's counter exactly what
-- they rise in all, falls not counted, and the last reading is the new baseline.
pub readings-Stands :
    (session : String) (previous total daily : ℕ) (rs : List (ℕ × ℕ)) (s : UserState)
    → previous < 2 ^ 63
    → All (λ r. r.0 < 2 ^ 63) rs
    → total + rises previous rs < 2 ^ 63
    → daily + rises previous rs < 2 ^ 63
    → Stands session previous total daily s
    → Stands session
        (last_reading previous rs)
        (total + rises previous rs)
        (daily + rises previous rs)
        (readings session rs s)
unfolding readings
readings-Stands session previous total daily [] s p b t d v = record {
  baseline = v.baseline;
  totals = v.totals ∙ ap pos (omega arith);
  dailies = v.dailies ∙ ap pos (omega arith);
}
readings-Stands session previous total daily ((n, now) ∷ rest) s p b t d v =
    let w =
      readings-Stands session n (total + (n - previous)) (daily + (n - previous)) rest
        (record_reading session (some (pos n)) now s) b.0 b.1 (omega arith) (omega arith)
        (record_reading-Stands session previous total daily n now s p b.0 (omega arith)
          (omega arith) v) in
    record {
      baseline = w.baseline;
      totals = w.totals ∙ ap pos (omega arith);
      dailies = w.dailies ∙ ap pos (omega arith);
    }
