-- ===== src/Extensions/Singleton/Once.antt =====
-- One client is built, whoever asks for it and in whatever order.
use djaskt_trading_app.Prelude.{
  ℕ, suc, ◌==◌, ◌≤◌, ◌≡◌, ◌⊎◌, ◌∙◌, refl, ap, sym, arith, false, Bool-cases, inl, inr, Option, none,
  some, List, [], ◌∷◌,
}
use djaskt_trading_app.Extensions.Singleton.{
  Point, begin, waiting, inside, building, leaving, reading, returned, Shared, after_first_test,
  after_second_test, acquire, advance, System, put_point, step, run, initial,
}

-- None is built, or one, and it is the client.
pub IsOne : Shared → Type 0
IsOne s = (s.client ≡ none × s.built ≡ 0) ⊎ (s.client ≡ some 0 × s.built ≡ 1)

-- What holds of a thread at a point.
unfoldable pub Holds : Shared → ℕ → Point → Type 0
Holds s u begin = Unit
Holds s u waiting = Unit
Holds s u inside = s.holder ≡ some u
Holds s u building = (s.holder ≡ some u) × (s.client ≡ none)
Holds s u leaving = (s.holder ≡ some u) × (s.client ≡ some 0)
Holds s u reading = s.client ≡ some 0
Holds s u (returned o) = (s.client ≡ some 0) × (o ≡ some 0)

pub record IsGood (x : System) : Type 0 where
  pub one : IsOne x.shared
  pub holds : (u : ℕ) → Holds x.shared u (x.point u)

-- What a move of thread `t` leaves to another.
record Leaves (t : ℕ) (s s' : Shared) : Type 0 where
  client_stays : s.client ≡ some 0 → s'.client ≡ some 0
  lock_stays : (u : ℕ) → (u == t) ≡ false → s.holder ≡ some u → s'.holder ≡ some u
  none_stays : (u : ℕ) → (u == t) ≡ false → s.holder ≡ some u → s.client ≡ none → s'.client ≡ none

stays : (t : ℕ) (s : Shared) → Leaves t s s
stays t s = record { client_stays = λ p. p; lock_stays = λ u n p. p; none_stays = λ u n p q. q }

Leaves-Holds :
    (t u : ℕ) (s s' : Shared) (p : Point)
    → (u == t) ≡ false
    → Leaves t s s'
    → Holds s u p
    → Holds s' u p
unfolding Holds
Leaves-Holds t u s s' begin n l h = h
Leaves-Holds t u s s' waiting n l h = h
Leaves-Holds t u s s' inside n l h = l.lock_stays u n h
Leaves-Holds t u s s' building n l h = (l.lock_stays u n h.0, l.none_stays u n h.0 h.1)
Leaves-Holds t u s s' leaving n l h = (l.lock_stays u n h.0, l.client_stays h.1)
Leaves-Holds t u s s' reading n l h = l.client_stays h
Leaves-Holds t u s s' (returned o) n l h = (l.client_stays h.0, h.1)

-- A move of a thread of which its point's condition holds.
record IsMove (t : ℕ) (s : Shared) (x : Shared × Point) : Type 0 where
  one : IsOne x.0
  holds : Holds x.0 t x.1
  leaves : Leaves t s x.0

same : (t : ℕ) (s : Shared) (p : Point) → IsOne s → Holds s t p → IsMove t s (s, p)
same t s p o h = record { one = o; holds = h; leaves = stays t s }

found : (s : Shared) (c : ℕ) → IsOne s → s.client ≡ some c → s.client ≡ some 0
unfolding IsOne
found s c (inl o) e = cc
found s c (inr o) e = o.0

acquire-IsMove :
    (t : ℕ) (s : Shared) (o : Option ℕ) → s.holder ≡ o → IsOne s → IsMove t s (acquire t o s)
unfolding acquire IsOne Holds
acquire-IsMove t s (some u) e o = same t s waiting o tt
acquire-IsMove t s none e o = record {
  one = o;
  holds = refl;
  leaves = record { client_stays = λ p. p; lock_stays = λ u n p. cc; none_stays = λ u n p q. q };
}

-- Two threads do not hold the lock.
held : (t u : ℕ) (s : Shared) → s.holder ≡ some t → (u == t) ≡ false → s.holder ≡ some u → ⊥
held t u s h n p =
    let q : Path (Option ℕ) (some u) (some t) = sym p ∙ h in let r : u ≡ t = cc in ground arith

first-IsMove :
    (t : ℕ) (s : Shared) (c : Option ℕ)
    → s.client ≡ c
    → IsOne s
    → IsMove t s (s, after_first_test c)
unfolding Holds
first-IsMove t s none e o = same t s waiting o tt
first-IsMove t s (some c) e o = same t s reading o (found s c o e)

second-IsMove :
    (t : ℕ) (s : Shared) (c : Option ℕ)
    → s.client ≡ c
    → IsOne s
    → s.holder ≡ some t
    → IsMove t s (s, after_second_test c)
unfolding Holds
second-IsMove t s none e o h = same t s building o (h, e)
second-IsMove t s (some c) e o h = same t s leaving o (h, found s c o e)

build-IsMove :
    (t : ℕ) (s : Shared)
    → IsOne s
    → s.holder ≡ some t
    → s.client ≡ none
    → IsMove t s (record s { client = some s.built; built = suc s.built }, leaving)
unfolding Holds IsOne
build-IsMove t s (inr o) h n = let p : Path (Option ℕ) none (some 0) = sym n ∙ o.0 in cc
build-IsMove t s (inl o) h n = record {
  one = inr (ap some o.1, ap suc o.1);
  holds = (h, ap some o.1);
  leaves = record {
    client_stays = λ p. ap some o.1;
    lock_stays = λ u m p. p;
    none_stays = λ u m p q. absurd (held t u s h m p);
  };
}

release-IsMove :
    (t : ℕ) (s : Shared)
    → IsOne s
    → s.holder ≡ some t
    → s.client ≡ some 0
    → IsMove t s (record s { holder = none }, reading)
unfolding Holds IsOne
release-IsMove t s o h c = record {
  one = o;
  holds = c;
  leaves = record {
    client_stays = λ p. p;
    lock_stays = λ u m p. absurd (held t u s h m p);
    none_stays = λ u m p q. q;
  };
}

advance-IsMove :
    (t : ℕ) (s : Shared) (p : Point) → IsOne s → Holds s t p → IsMove t s (advance t s p)
unfolding advance Holds
advance-IsMove t s begin o h = first-IsMove t s s.client refl o
advance-IsMove t s waiting o h = acquire-IsMove t s s.holder refl o
advance-IsMove t s inside o h = second-IsMove t s s.client refl o h
advance-IsMove t s building o h = build-IsMove t s o h.0 h.1
advance-IsMove t s leaving o h = release-IsMove t s o h.0 h.1
advance-IsMove t s reading o h = same t s (returned s.client) o (h, h)
advance-IsMove t s (returned c) o h = same t s (returned c) o h

put-Holds :
    (t u : ℕ) (s s' : Shared) (p : Point) (f : ℕ → Point)
    → Leaves t s s'
    → Holds s' t p
    → Holds s u (f u)
    → Holds s' u (put_point t p f u)
put-Holds t u s s' p f l h k = elim (Bool-cases (u == t)) [
  | inl e ↦ let q : u ≡ t = ground arith in rw (e, q) h
  | inr e ↦ rw e (Leaves-Holds t u s s' (f u) e l k)
]

step-IsGood : (t : ℕ) (x : System) → IsGood x → IsGood (step t x)
unfolding step
step-IsGood t x g =
    let m = advance-IsMove t x.shared (x.point t) g.one (g.holds t) in
    record {
      one = m.one;
      holds = λ u. put-Holds t u x.shared _ _ x.point m.leaves m.holds (g.holds u);
    }

pub run-IsGood : (schedule : List ℕ) (x : System) → IsGood x → IsGood (run schedule x)
unfolding run
run-IsGood [] x g = g
run-IsGood (t ∷ schedule) x g = run-IsGood schedule (step t x) (step-IsGood t x g)

pub initial-IsGood : IsGood initial
unfolding Holds IsOne
initial-IsGood = record { one = inl (refl, refl); holds = λ u. tt }

IsOne-built : (s : Shared) → IsOne s → s.built ≤ 1
unfolding IsOne
IsOne-built s (inl o) = let p = o.1 in omega arith
IsOne-built s (inr o) = let p = o.1 in omega arith

pub returned-Holds :
    (s : Shared) (t : ℕ) (p : Point) (o : Option ℕ)
    → Holds s t p
    → p ≡ returned o
    → (s.client ≡ some 0) × (o ≡ some 0)
unfolding Holds
returned-Holds s t (returned c) o h e = let q : c ≡ o = cc in (h.0, sym q ∙ h.1)
returned-Holds s t begin o h e = cc
returned-Holds s t waiting o h e = cc
returned-Holds s t inside o h e = cc
returned-Holds s t building o h e = cc
returned-Holds s t leaving o h e = cc
returned-Holds s t reading o h e = cc

-- However many threads ask for the client and however their accesses interleave, one client at most is built, and a
-- call that has returned has returned it.
pub get_client_once :
    (schedule : List ℕ) (t : ℕ) (o : Option ℕ)
    → (run schedule initial).point t ≡ returned o
    → ((run schedule initial).shared.built ≤ 1)
      × (o ≡ some 0)
      × ((run schedule initial).shared.client ≡ o)
get_client_once schedule t o e =
    let g = run-IsGood schedule initial initial-IsGood in
    let r = returned-Holds _ t _ o (g.holds t) e in (IsOne-built _ g.one, r.1, r.0 ∙ sym r.1)
