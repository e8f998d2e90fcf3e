-- ===== src/ExpGain/Windows.antt =====
-- The windows of the samples, and what pruning them leaves.
use monitor_backend.Base.{ℕ, ◌+◌, ◌≡◌, ◌≢◌, refl, List, [], ◌∷◌, keep, arith, All}
use monitor_backend.Base.Int.{ℤ, pos, add64}
use monitor_backend.ExpGain.{
  Sample, UserState, sum_from, sum_window, payload, prune_samples, is_retained, window_10m,
  window_1h, sample_retain,
}

-- The plain sum of the samples.
abbrev pub sum_all : ℤ → List Sample → ℤ
sum_all total [] = total
sum_all total (x ∷ xs) = sum_all (add64 total x.gained) xs

sum_10m-keep :
    (now : ℕ) (total : ℤ) (xs : List Sample)
    → sum_from total now window_10m (keep (is_retained now) xs) ≡ sum_from total now window_10m xs
unfolding sum_from
sum_10m-keep now total [] = refl
sum_10m-keep now total (x ∷ xs) =
    ground (arith, sum_10m-keep now total xs, sum_10m-keep now (add64 total x.gained) xs)

sum_1h-keep :
    (now : ℕ) (total : ℤ) (xs : List Sample)
    → sum_from total now window_1h (keep (is_retained now) xs)
      ≡ sum_all total (keep (is_retained now) xs)
unfolding sum_from
sum_1h-keep now total [] = refl
sum_1h-keep now total (x ∷ xs) =
    ground (arith, sum_1h-keep now total xs, sum_1h-keep now (add64 total x.gained) xs)

sum_1h-prune :
    (now : ℕ) (total : ℤ) (xs : List Sample)
    → All (λ (x : Sample). now ≢ x.at + sample_retain) xs
    → sum_from total now window_1h (keep (is_retained now) xs) ≡ sum_from total now window_1h xs
unfolding sum_from
sum_1h-prune now total [] a = refl
sum_1h-prune now total (x ∷ xs) a =
    ground
      (arith, a.0, sum_1h-prune now total xs a.1, sum_1h-prune now (add64 total x.gained) xs a.1)

-- After the samples are pruned the payload's outflow is the plain sum of those that are left, and its
-- inflow is what it was.
pub payload-prune :
    (now : ℕ) (s : UserState)
    → let s' = prune_samples now s in
      ((payload now s').outflow1h ≡ sum_all (pos 0) s'.samples)
      × ((payload now s').inflow10m ≡ (payload now s).inflow10m)
unfolding payload prune_samples sum_window
payload-prune now s = (sum_1h-keep now (pos 0) s.samples, sum_10m-keep now (pos 0) s.samples)

-- Unless a sample is exactly one hour old, pruning changes nothing of the payload.
pub payload-prune_same :
    (now : ℕ) (s : UserState)
    → All (λ (x : Sample). now ≢ x.at + sample_retain) s.samples
    → payload now (prune_samples now s) ≡ payload now s
unfolding payload prune_samples sum_window
payload-prune_same now s a =
    ground (arith, sum_10m-keep now (pos 0) s.samples, sum_1h-prune now (pos 0) s.samples a)
