-- ===== src/Server/Policies.antt =====
-- A saved policy decides which clients log in.
use monitor_backend.Base.{
  ◌≡◌, refl, ap, subst, inl, inr, String, Bool, true, false, not, ◌&&◌, ◌||◌, Option, some, List,
  [], ◌∷◌, ◌==◌, string_eq, if◌then◌else◌, arith, Bool-cases, Option-cases, eq_iff,
}
use monitor_backend.Base.Results.{ok, err, refuse_if, passed, succeeded, ok_inj}
use monitor_backend.Base.Texts.{trim_space}
use monitor_backend.BossCycle.{find, has}
use monitor_backend.Server.Rows.{find-passes, find-none, find-append, find-update}
use monitor_backend.Server.Attempts.{true-ne-false}
use monitor_backend.Server.Versions.{
  to_lower, ClientVersionPolicy, normalize_client_version, is_policy, policy, register_version,
  require_allowed_client_version, set_enabled, saved_policy, requested_switch,
  handle_save_admin_client_version,
}

-- A table in which the first row of the key has the switch.
abbrev Has : (String → String → Bool) → String × String → Bool → List ClientVersionPolicy → Type 0
Has same key enabled ps =
    (has (is_policy same key) ps ≡ true)
    × ((p : ClientVersionPolicy) × (find (is_policy same key) ps ≡ some p) × (p.enabled ≡ enabled))

find-has {ℓ} :
    {A : Type ℓ} (p : A → Bool) (xs : List A) (x : A) → find p xs ≡ some x → has p xs ≡ true
find-has p [] x e = cc
find-has p (y ∷ ys) x e = ground (arith, find-has p ys x)

saved_policy-Has :
    (same : String → String → Bool) (key : String × String) (enabled : Bool)
    → (ps : List ClientVersionPolicy) → is_policy same key (policy key enabled) ≡ true
    → Has same key enabled (saved_policy same key enabled ps)
saved_policy-Has same key enabled ps own = elim (Option-cases (find (is_policy same key) ps)) [
  | inl e ↦
      let found = find-append (is_policy same key) ps (policy key enabled) e own in
      let none_yet = find-none (is_policy same key) ps e in
      rw none_yet (find-has (is_policy same key) _ _ found, (policy key enabled, found, refl))
  | inr (p, e) ↦
      let there = find-has (is_policy same key) ps p e in
      let found =
        find-update (is_policy same key) (is_policy same key) (set_enabled enabled) ps p (λ y. refl)
          e (find-passes (is_policy same key) ps p e) in
      rw there (find-has (is_policy same key) _ _ found, (set_enabled enabled p, found, refl))
]

decided :
    (enabled : Bool)
    → refuse_if (not enabled) "client_version_disabled"
      ≡ (if enabled then ok tt else err "client_version_disabled")
decided true = refl
decided false = refl

-- What a login with the key answers.
register_version-Has :
    (same : String → String → Bool) (key : String × String) (enabled : Bool)
    → (ps : List ClientVersionPolicy) → Has same key enabled ps
    → register_version true true same ps (ok key)
      ≡ (ps, (if enabled then ok tt else err "client_version_disabled"))
register_version-Has same key enabled ps (there, (p, found, switch)) =
    rw (there, found) (rw switch (ap (λ r. (ps, r)) (decided enabled)))

named_platform :
    (platform version : String) (key : String × String)
    → normalize_client_version platform version ≡ ok key
    → (trim_space platform == "" && trim_space version == "") ≡ false
unfolding normalize_client_version to_lower
named_platform platform version key e = elim (Bool-cases (trim_space platform == "")) [
  | inr n ↦ rw n refl
  | inl t ↦
      let (known, e1) =
        passed
          (not (
            to_lower (trim_space platform) == "macos"
            || to_lower (trim_space platform) == "windows"))
          "invalid_client_version" _ key e in
      absurd (
        true-ne-false (
          subst (λ s. not (to_lower s == "macos" || to_lower s == "windows") ≡ false)
            ((eq_iff (trim_space platform) "").0 t) known))
]

-- Right after a policy is saved, a login whose platform and version have the saved key is let in if the
-- version is enabled and refused as disabled otherwise, and the policies stay as they are. The statements
-- of the login succeed, and the database's comparison takes every text for equal to itself.
pub require_allowed_client_version-saved :
    (writes : Bool) (same : String → String → Bool)
    → (platform version platform' version' : String) (requested : Option Bool)
    → (ps after : List ClientVersionPolicy) (saved : ClientVersionPolicy)
    → ((s : String) → same s s ≡ true)
    → handle_save_admin_client_version writes same platform version requested ps ≡ ok (after, saved)
    → normalize_client_version platform' version' ≡ ok (saved.platform, saved.version)
    → require_allowed_client_version true true same platform' version' after
      ≡ (after, (if saved.enabled then ok tt else err "client_version_disabled"))
unfolding handle_save_admin_client_version require_allowed_client_version
require_allowed_client_version-saved writes same platform version platform' version' requested ps
      after saved own e named =
    let (key, k, e1) = succeeded (normalize_client_version platform version) _ (after, saved) e in
    let (enabled, r, e2) = succeeded (requested_switch requested) _ (after, saved) e1 in
    let (w, e3) = passed (not writes) "internal_error" _ (after, saved) e2 in
    let done : (saved_policy same key enabled ps, policy key enabled) ≡ (after, saved) =
      ok_inj _ (after, saved) e3 in
    let holds : Has same (saved.platform, saved.version) saved.enabled after =
      subst
        (λ (z : List ClientVersionPolicy × ClientVersionPolicy).
          Has same (z.1.platform, z.1.version) z.1.enabled z.0)
        done (saved_policy-Has same key enabled ps (rw (own key.0, own key.1) refl)) in
    rw (named_platform platform' version' (saved.platform, saved.version) named, named)
      (register_version-Has same (saved.platform, saved.version) saved.enabled after holds)
