-- ===== src/Base/Results.antt =====
-- Fallible code: a value or an error text.
use Prim.Native.String.{String}
use mathlib.Core.Bool.{Bool, true, false}
use mathlib.Core.Path.{◌≡◌, refl}

pub data Result {ℓ} (V : Type ℓ) : Type ℓ where
  err : String → Result V
  ok : V → Result V

infixl 5 ◌>>=◌
abbrev pub ◌>>=◌ {ℓ κ} : {V : Type ℓ} {W : Type κ} → Result V → (V → Result W) → Result W
err why >>= next = err why
ok v >>= next = next v

infixl 5 ◌>>◌
abbrev pub ◌>>◌ {κ} : {W : Type κ} → Result (Unit {0}) → Result W → Result W
check >> after = check >>= λ _. after

-- `if bad { return error }`.
abbrev pub refuse_if : Bool → String → Result (Unit {0})
refuse_if true e = err e
refuse_if false e = ok tt

pub refuse_if-eq-ok : (b : Bool) (e : String) → refuse_if b e ≡ ok tt → b ≡ false
refuse_if-eq-ok true e h = cc
refuse_if-eq-ok false e h = refl

-- What the success of a chain says of its parts.
pub passed {ℓ} :
    {A : Type ℓ} (b : Bool) (why : String) (r : Result A) (x : A)
    → refuse_if b why >> r ≡ ok x
    → (b ≡ false) × (r ≡ ok x)
passed true why r x e = cc
passed false why r x e = (refl, e)

pub succeeded {ℓ κ} :
    {A : Type ℓ} {B : Type κ} (r : Result A) (next : A → Result B) (y : B)
    → (r >>= next) ≡ ok y
    → (x : A) × (r ≡ ok x) × (next x ≡ ok y)
succeeded (err why) next y e = cc
succeeded (ok x) next y e = (x, refl, e)

pub ok_inj {ℓ} : {A : Type ℓ} (x y : A) → ok x ≡ ok y → x ≡ y
ok_inj x y e = cc
