-- ===== src/Prelude/Action.antt =====
-- Python code that reads and writes a shared state and may raise. What was written before a
-- raise stays written, unless a `transaction.atomic()` block rolls it back.
use djaskt_trading_app.Prelude.{
  ◌≡◌, ◌⊎◌, inl, inr, refl, Bool, true, false, Option, none, some, arith, if◌then◌else◌,
}

pub data Result (E A : Type 0) : Type 0 where
  ok : A → Result E A
  err : E → Result E A

abbrev pub Action : Type 0 → Type 0 → Type 0 → Type 0
Action S E A = S → Result E A × S

module _ {S E A : Type 0} where
  abbrev pub pure : A → Action S E A
  pure a s = (ok a, s)

  abbrev pub raise : E → Action S E A
  raise e s = (err e, s)

  abbrev pub lift : Result E A → Action S E A
  lift r s = (r, s)

  abbrev pub gets : (S → A) → Action S E A
  gets f s = (ok (f s), s)

  abbrev pub or_raise : Option A → E → Action S E A
  or_raise none e s = (err e, s)
  or_raise (some a) _ s = (ok a, s)

  -- The state to keep when a block that began in the first state ends in the second.
  abbrev pub settle : S → Result E A × S → Result E A × S
  settle s (ok a, s') = (ok a, s')
  settle s (err e, _) = (err e, s)

  -- `with transaction.atomic():`
  abbrev pub atomic : Action S E A → Action S E A
  atomic m s = settle s (m s)

  -- `first()` on an optional row: the block of the `is None` test and the rest.
  abbrev pub if_some : {B : Type 0} → Option B → (B → Action S E A) → Action S E A → Action S E A
  if_some none f m = m
  if_some (some b) f m = f b

module _ {S E : Type 0} where
  abbrev pub raise_if : Bool → E → Action S E (Unit {0})
  raise_if c e s = (if c then err e else ok tt, s)

  abbrev pub modify : (S → S) → Action S E (Unit {0})
  modify f s = (ok tt, f s)

module _ {S E A B : Type 0} where
  abbrev pub continue : Result E A × S → (A → Action S E B) → Result E B × S
  continue (ok a, s) f = f a s
  continue (err e, s) f = (err e, s)

  infixl 5 ◌>>=◌ ◌>>◌
  abbrev pub ◌>>=◌ : Action S E A → (A → Action S E B) → Action S E B
  ◌>>=◌ m f s = continue (m s) f

  abbrev pub ◌>>◌ : Action S E A → Action S E B → Action S E B
  m >> k = m >>= λ _. k

-- What is known of the parts of a block that did not raise.
module _ {S E A B : Type 0} where
  pub continue-eq-ok :
      (x : Result E A × S) (f : A → Action S E B) {b : B} {s' : S}
      → continue x f ≡ (ok b, s')
      → (a : A) × (s₁ : S) × (x ≡ (ok a, s₁)) × (f a s₁ ≡ (ok b, s'))
  continue-eq-ok (ok a, s) f h = (a, s, refl, h)
  continue-eq-ok (err e, s) f h = cc

module _ {S E A : Type 0} where
  pub or_raise-eq-ok :
      (o : Option A) (e : E) (s : S) {a : A} {s' : S}
      → or_raise o e s ≡ (ok a, s')
      → (o ≡ some a) × (s' ≡ s)
  or_raise-eq-ok none e s h = cc
  or_raise-eq-ok (some a) e s h = ground arith

  pub lift-eq-ok :
      (r : Result E A) (s : S) {a : A} {s' : S} → lift r s ≡ (ok a, s') → (r ≡ ok a) × (s' ≡ s)
  lift-eq-ok (ok a) s h = ground arith
  lift-eq-ok (err e) s h = cc

  pub settle-eq-ok :
      (s : S) (x : Result E A × S) {a : A} {s' : S} → settle s x ≡ (ok a, s') → x ≡ (ok a, s')
  settle-eq-ok s (ok a, t) h = h
  settle-eq-ok s (err e, t) h = cc

  -- A block under `atomic` that raises has changed nothing.
  pub settle-eq-err :
      (s : S) (x : Result E A × S) {e : E} {s' : S} → settle s x ≡ (err e, s') → s' ≡ s
  settle-eq-err s (ok a, t) h = cc
  settle-eq-err s (err e, t) h = ground arith

module _ {S E : Type 0} where
  pub raise_if-eq-ok :
      (c : Bool) (e : E) (s : S) {u : Unit {0}} {s' : S}
      → raise_if c e s ≡ (ok u, s')
      → (c ≡ false) × (s' ≡ s)
  raise_if-eq-ok true e s h = cc
  raise_if-eq-ok false e s h = ground arith

-- A split on how a call ended.
pub outcome :
    {S E A : Type 0} (x : Result E A × S)
    → ((a : A) × (s : S) × (x ≡ (ok a, s))) ⊎ ((e : E) × (s : S) × (x ≡ (err e, s)))
outcome (ok a, s) = inl (a, s, refl)
outcome (err e, s) = inr (e, s, refl)

pub Result-cases :
    {E A : Type 0} (x : Result E A) → ((a : A) × (x ≡ ok a)) ⊎ ((e : E) × (x ≡ err e))
Result-cases (ok a) = inl (a, λ i. ok a)
Result-cases (err e) = inr (e, λ i. err e)
