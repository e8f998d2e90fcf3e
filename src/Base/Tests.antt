-- ===== src/Base/Tests.antt =====
-- Boolean tests, the conditional, and the interface of types with a lawful equality test.
use Prim.Native.Nat.{ℕ, compare, Ordering}
use Prim.Native.String.{String}
use mathlib.Core.Path.{◌≡◌, refl, ap}
use mathlib.Core.Logic.{◌↔◌, ◌⊎◌, inl, inr}
use mathlib.Core.Bool.{Bool, true, false, not, ◌&&◌}
use mathlib.Core.Option.{Option, none, some}
use native.Mathlib.Omega.{arith}
use text.Mathlib.Text.{◌==◌ as str_eq}
use text.Mathlib.TextEquality.{eq_iff}

abbrev pub ltb : ℕ → ℕ → Bool
ltb a b = elim (compare a b) [ Ordering.lt ↦ true | _ ↦ false ]

abbrev pub leb : ℕ → ℕ → Bool
leb a b = elim (compare a b) [ Ordering.gt ↦ false | _ ↦ true ]

abbrev pub nat_beq : ℕ → ℕ → Bool
nat_beq a b = elim (compare a b) [ Ordering.eq ↦ true | _ ↦ false ]

infix 1 if◌then◌else◌
abbrev pub if◌then◌else◌ {ℓ} : {A : Type ℓ} → Bool → A → A → A
if true then x else y = x
if false then x else y = y

pub nat_beq_iff : (a b : ℕ) → (nat_beq a b ≡ true) ↔ (a ≡ b)
nat_beq_iff a b = ground arith

-- To split on a computed value and keep the equation.
pub Bool-cases : (b : Bool) → (b ≡ true) ⊎ (b ≡ false)
Bool-cases true = inl refl
Bool-cases false = inr refl

pub Option-cases {ℓ} : {A : Type ℓ} (o : Option A) → (o ≡ none) ⊎ ((a : A) × (o ≡ some a))
Option-cases none = inl refl
Option-cases (some a) = inr (a, refl)

abbrev pub is_some {ℓ} : {A : Type ℓ} → Option A → Bool
is_some none = false
is_some (some a) = true

-- A call that changes the state only when a test passes.
pub state_if_not {ℓ κ μ} :
    {S : Type ℓ} {R : Type κ} (P : S → Type μ) (b : Bool) (x y : S × R)
    → P x.0
    → P y.0
    → P (if not b then x else y).0
state_if_not P true x y p q = q
state_if_not P false x y p q = p

-- Types whose values are compared by a lawful test.
pub record Equality {κ} (K : Type κ) : Type κ where
  pub same : K → K → Bool
  pub same_iff : (j k : K) → (same j k ≡ true) ↔ (j ≡ k)

instance abbrev pub string_eq : Equality String
string_eq = record { same_iff = eq_iff; same = str_eq }

infix 50 ◌==◌
abbrev pub ◌==◌ {κ} : {K : Type κ} ⦃t : Equality K⦄ → K → K → Bool
◌==◌ ⦃t⦄ j k = t.same j k

instance abbrev pub nat_eq : Equality ℕ
nat_eq = record { same_iff = nat_beq_iff; same = nat_beq }

-- A key of two columns.
abbrev pub same_pair : ℕ × String → ℕ × String → Bool
same_pair (a, s) (b, t) = nat_beq a b && str_eq s t

pub same_pair_iff : (x y : ℕ × String) → (same_pair x y ≡ true) ↔ (x ≡ y)
same_pair_iff (a, s) (b, t) = (
  λ e.
      let p : a ≡ b = (nat_beq_iff a b).0 (ground (arith)) in
      let q : s ≡ t = (eq_iff s t).0 (ground (arith)) in cc,
  λ p. ground (
    arith,
    nat_beq_iff a b,
    eq_iff s t,
    ap (λ (z : ℕ × String). z.0) p,
    ap (λ (z : ℕ × String). z.1) p,
  ),
)

instance abbrev pub pair_eq : Equality (ℕ × String)
pair_eq = record { same_iff = same_pair_iff; same = same_pair }
