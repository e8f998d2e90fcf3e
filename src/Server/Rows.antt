-- ===== src/Server/Rows.antt =====
-- Lemmas on the rows of a table: the first that passes a test, the rows that pass one, and updates.
use monitor_backend.Base.{
  ℕ, ◌+◌, ◌<◌, ◌≡◌, refl, sym, ap, ◌∙◌, Bool, true, false, none, some, List, [], ◌∷◌, ◌++◌, keep,
  length, arith, Bool-cases, inl, inr,
}
use monitor_backend.BossCycle.{find, has, update_where}

pub some_inj {ℓ} : {A : Type ℓ} (x y : A) → some x ≡ some y → x ≡ y
some_inj x y e = cc

module _ {ℓ} {A : Type ℓ} where
  -- How many rows pass a test.
  abbrev pub amount : (A → Bool) → List A → ℕ
  amount p xs = length (keep p xs)

  pub find-passes : (p : A → Bool) (xs : List A) (x : A) → find p xs ≡ some x → p x ≡ true
  find-passes p [] x e = cc
  find-passes p (y ∷ ys) x e = elim (Bool-cases (p y)) [
    | inl t ↦ ap p (sym (some_inj y x ((rw t refl) ∙ e))) ∙ t
    | inr f ↦ find-passes p ys x ((rw f refl) ∙ e)
  ]

  pub find-none : (p : A → Bool) (xs : List A) → find p xs ≡ none → has p xs ≡ false
  find-none p [] e = refl
  find-none p (y ∷ ys) e = ground (arith, find-none p ys)

  pub has-amount : (p : A → Bool) (xs : List A) → has p xs ≡ false → amount p xs ≡ 0
  has-amount p [] e = refl
  has-amount p (y ∷ ys) e = ground (arith, has-amount p ys)

  pub amount-append :
      (p : A → Bool) (xs ys : List A) → amount p (xs ++ ys) ≡ amount p xs + amount p ys
  amount-append p [] ys = omega arith
  amount-append p (x ∷ xs) ys = ground (arith, amount-append p xs ys)

  -- A row that a query finds counts.
  pub find-amount :
      (p q : A → Bool) (xs : List A) (x : A) → find p xs ≡ some x → q x ≡ true → 0 < amount q xs
  find-amount p q [] x e h = cc
  find-amount p q (y ∷ ys) x e h = elim (Bool-cases (p y)) [
    | inl t ↦ rw (ap q (some_inj y x ((rw t refl) ∙ e)) ∙ h) (omega arith)
    | inr f ↦ let rest : 0 < amount q ys = find-amount p q ys x ((rw f refl) ∙ e) h in ground arith
  ]

  -- An update that changes no row.
  pub update-none :
      (p : A → Bool) (f : A → A) (xs : List A) → amount p xs ≡ 0 → update_where p f xs ≡ xs
  update-none p f [] e = refl
  update-none p f (x ∷ xs) e = ground (arith, update-none p f xs)

  -- An update that a test does not see.
  pub amount-update :
      (q p : A → Bool) (f : A → A) (xs : List A)
      → ((x : A) → q (f x) ≡ q x)
      → amount q (update_where p f xs) ≡ amount q xs
  amount-update q p f [] h = refl
  amount-update q p f (x ∷ xs) h = ground (arith, amount-update q p f xs h, h x)

  -- A query whose test an update does not change finds the updated row.
  pub find-update :
      (p q : A → Bool) (f : A → A) (xs : List A) (x : A)
      → ((y : A) → p (f y) ≡ p y)
      → find p xs ≡ some x
      → q x ≡ true
      → find p (update_where q f xs) ≡ some (f x)
  find-update p q f [] x h e t = cc
  find-update p q f (y ∷ ys) x h e t = elim (Bool-cases (p y)) [
    | inl c ↦
        let same : y ≡ x = some_inj y x ((rw c refl) ∙ e) in
        let hit : q y ≡ true = ap q same ∙ t in rw (hit, (h y) ∙ c) (ap (λ z. some (f z)) same)
    | inr n ↦ let rest = find-update p q f ys x h ((rw n refl) ∙ e) t in ground (arith, h y)
  ]

  pub find-append :
      (p : A → Bool) (xs : List A) (x : A)
      → find p xs ≡ none
      → p x ≡ true
      → find p (xs ++ (x ∷ [])) ≡ some x
  find-append p [] x e t = rw t refl
  find-append p (y ∷ ys) x e t = ground (arith, find-append p ys x)

  -- A second update of the rows that were hit, as another one.
  pub update-after :
      (p : A → Bool) (f g k : A → A) (xs : List A)
      → ((x : A) → g (f x) ≡ k (f x))
      → ((x : A) → p (f x) ≡ p x)
      → update_where p g (update_where p f xs) ≡ update_where p k (update_where p f xs)
  update-after p f g k [] h same = refl
  update-after p f g k (x ∷ xs) h same = elim (Bool-cases (p x)) [
    | inl t ↦
        let hit : p (f x) ≡ true = same x ∙ t in
        rw (t, hit, h x) (ap (λ ys. k (f x) ∷ ys) (update-after p f g k xs h same))
    | inr n ↦ rw (n, n) (ap (λ ys. x ∷ ys) (update-after p f g k xs h same))
  ]

  pub has-append : (p : A → Bool) (xs : List A) (x : A) → p x ≡ true → has p (xs ++ (x ∷ [])) ≡ true
  has-append p [] x e = rw e refl
  has-append p (y ∷ ys) x e = ground (arith, has-append p ys x e)

  pub has-update :
      (q p : A → Bool) (f : A → A) (xs : List A)
      → ((x : A) → q (f x) ≡ q x)
      → has q (update_where p f xs) ≡ has q xs
  has-update q p f [] h = refl
  has-update q p f (x ∷ xs) h = ground (arith, has-update q p f xs h, h x)

  pub find-update_missed :
      (p q : A → Bool) (f : A → A) (xs : List A) (x : A)
      → ((y : A) → p (f y) ≡ p y)
      → find p xs ≡ some x
      → q x ≡ false
      → find p (update_where q f xs) ≡ some x
  find-update_missed p q f [] x h e t = cc
  find-update_missed p q f (y ∷ ys) x h e t = elim (Bool-cases (p y)) [
    | inl c ↦
        let same : y ≡ x = some_inj y x ((rw c refl) ∙ e) in
        let miss : q y ≡ false = ap q same ∙ t in rw (miss, c) (ap some same)
    | inr n ↦ let rest = find-update_missed p q f ys x h ((rw n refl) ∙ e) t in ground (arith, h y)
  ]

  -- No row is left that an update would change again.
  pub has-update_none :
      (p : A → Bool) (f : A → A) (xs : List A)
      → ((x : A) → p (f x) ≡ false)
      → has p (update_where p f xs) ≡ false
  has-update_none p f [] h = refl
  has-update_none p f (x ∷ xs) h = elim (Bool-cases (p x)) [
    | inl t ↦ rw (t, h x) (has-update_none p f xs h)
    | inr n ↦ rw (n, n) (has-update_none p f xs h)
  ]
