-- ===== src/Prelude/Rows.antt =====
-- Tables as lists of rows: the first row that passes a test, and a predicate on every row.
use djaskt_trading_app.Prelude.{
  ℕ, not, ◌==◌, suc, ◌≤◌, refl, false, Bool-cases, inl, inr, ◌≡◌, Bool, true, Option, none, some,
  List, [], ◌∷◌, arith, if◌then◌else◌,
}

module _ {A : Type 0} where
  -- `filter(...).first()`
  abbrev pub find : (A → Bool) → List A → Option A
  find p [] = none
  find p (x ∷ xs) = if p x then some x else find p xs

  abbrev pub All : (A → Type 0) → List A → Type 0
  All P [] = Unit
  All P (x ∷ xs) = P x × All P xs

  pub All-find :
      (P : A → Type 0) (p : A → Bool) (xs : List A) (x : A) → All P xs → find p xs ≡ some x → P x
  All-find P p [] x h e = cc
  All-find P p (y ∷ ys) x h e = ground (arith, All-find P p ys x h.1)

  pub find-passes : (p : A → Bool) (xs : List A) (x : A) → find p xs ≡ some x → p x ≡ true
  find-passes p [] x e = cc
  find-passes p (y ∷ ys) x e = ground (arith, find-passes p ys x)

  -- `filter(...)`
  abbrev pub filter : (A → Bool) → List A → List A
  filter p [] = []
  filter p (x ∷ xs) = let rest = filter p xs in if p x then x ∷ rest else rest

  -- `exclude(...)`, which is also what a `delete()` of the others leaves
  abbrev pub exclude : (A → Bool) → List A → List A
  exclude p [] = []
  exclude p (x ∷ xs) = let rest = exclude p xs in if p x then rest else x ∷ rest

  -- `filter(...).count()`
  abbrev pub count : (A → Bool) → List A → ℕ
  count p [] = 0
  count p (x ∷ xs) = let rest = count p xs in if p x then suc rest else rest

  -- `filter(...).exists()`
  abbrev pub any : (A → Bool) → List A → Bool
  any p [] = false
  any p (x ∷ xs) = if p x then true else any p xs

  pub filter-exclude_ne :
      (p q : A → Bool) (xs : List A)
      → ((x : A) → p x ≡ true → q x ≡ false)
      → filter p (exclude q xs) ≡ filter p xs
  filter-exclude_ne p q [] h = refl
  filter-exclude_ne p q (x ∷ xs) h = elim (Bool-cases (p x)) [
    | inl a ↦ rw (h x a, a, filter-exclude_ne p q xs h) refl
    | inr a ↦ elim (Bool-cases (q x)) [
      | inl b ↦ rw (a, b, filter-exclude_ne p q xs h) refl
      | inr b ↦ rw (b, a, filter-exclude_ne p q xs h) refl
    ]
  ]

  pub find-exclude :
      (p q : A → Bool) (xs : List A)
      → ((x : A) → p x ≡ true → q x ≡ true)
      → find p (exclude q xs) ≡ none
  find-exclude p q [] h = refl
  find-exclude p q (x ∷ xs) h = elim (Bool-cases (p x)) [
    | inl a ↦ rw (h x a, find-exclude p q xs h) refl
    | inr a ↦ elim (Bool-cases (q x)) [
      | inl b ↦ rw (b, find-exclude p q xs h) refl
      | inr b ↦ rw (b, a, find-exclude p q xs h) refl
    ]
  ]

  pub count-exclude : (p q : A → Bool) (xs : List A) → count p (exclude q xs) ≤ count p xs
  count-exclude p q [] = omega arith
  count-exclude p q (x ∷ xs) = let h = count-exclude p q xs in ground arith

  pub any-count : (p : A → Bool) (xs : List A) → any p xs ≡ false → count p xs ≡ 0
  any-count p [] h = refl
  any-count p (x ∷ xs) h = ground (arith, any-count p xs)

  pub any-eq-count : (p : A → Bool) (xs : List A) → any p xs ≡ not (count p xs == 0)
  any-eq-count p [] = refl
  any-eq-count p (x ∷ xs) = ground (arith, any-eq-count p xs)

  pub find-any : (p : A → Bool) (xs : List A) → any p xs ≡ false → find p xs ≡ none
  find-any p [] h = refl
  find-any p (x ∷ xs) h = ground (arith, find-any p xs)

  pub count-none : (p : A → Bool) (xs : List A) → count p xs ≡ 0 → find p xs ≡ none
  count-none p [] h = refl
  count-none p (x ∷ xs) h = ground (arith, count-none p xs)

  -- Of rows of which one at most passes a test, none is left when that one is deleted.
  pub count-exclude_unique :
      (p q : A → Bool) (xs : List A) (x : A)
      → count p xs ≤ 1
      → find p xs ≡ some x
      → q x ≡ true
      → count p (exclude q xs) ≡ 0
  count-exclude_unique p q [] x u f h = cc
  count-exclude_unique p q (y ∷ ys) x u f h =
      let rest = count-exclude p q ys in ground (arith, count-exclude_unique p q ys x)
