-- ===== src/Extensions/Singleton/Alone.antt =====
-- A call returns: the thread that holds the lock can always release it, and with the lock free six accesses of a
-- call's own thread are enough.
use djaskt_trading_app.Prelude.{
  ℕ, ◌==◌, ◌≡◌, ◌∙◌, refl, ap, arith, Bool, true, false, Bool-cases, inl, inr, Option, none, some,
  List, [], ◌∷◌, ◌++◌, map,
}
use djaskt_trading_app.Extensions.Singleton.{
  Point, begin, waiting, inside, building, leaving, reading, returned, Shared, after_first_test,
  after_second_test, acquire, advance, System, step, run, initial,
}
use djaskt_trading_app.Extensions.Singleton.Once.{
  Holds, IsGood, run-IsGood, initial-IsGood, returned-Holds,
}

abbrev six_moves : List (Unit {0})
six_moves = tt ∷ tt ∷ tt ∷ tt ∷ tt ∷ tt ∷ []

-- So many accesses of a thread, on what it sees.
solo : ℕ → List (Unit {0}) → Shared × Point → Shared × Point
solo t [] x = x
solo t (u ∷ us) (s, p) = solo t us (advance t s p)

step_alone :
    (t : ℕ) (x : System)
    → Path (Shared × Point) ((step t x).shared, (step t x).point t) (advance t x.shared (x.point t))
unfolding step
step_alone t x = let e : (t == t) ≡ true = ground arith in rw e refl

-- With no other thread between them, they are the moves of the whole system.
run-solo :
    (t : ℕ) (us : List (Unit {0})) (x : System)
    → (run (map (λ u. t) us) x).point t ≡ (solo t us (x.shared, x.point t)).1
unfolding run solo
run-solo t [] x = refl
run-solo t (u ∷ us) x = run-solo t us (step t x) ∙ ap (λ y. (solo t us y).1) (step_alone t x)

solo_returns :
    (t : ℕ) (c : Option ℕ) (n : ℕ) (p : Point)
    → Holds (record { client = c; built = n; holder = none }) t p
    → (o : Option ℕ) × ((solo t six_moves (record { client = c; built = n; holder = none }, p)).1
        ≡ returned o)
unfolding solo advance acquire Holds
solo_returns t none n begin h = (some n, refl)
solo_returns t (some c) n begin h = (some c, refl)
solo_returns t none n waiting h = (some n, refl)
solo_returns t (some c) n waiting h = (some c, refl)
solo_returns t c n inside h = cc
solo_returns t c n building h = let e = h.0 in cc
solo_returns t c n leaving h = let e = h.0 in cc
solo_returns t c n reading h = (c, refl)
solo_returns t c n (returned o) h = (o, refl)

free_returns :
    (t : ℕ) (x : System)
    → IsGood x
    → x.shared.holder ≡ none
    → (o : Option ℕ) × ((run (map (λ u. t) six_moves) x).point t ≡ returned o)
free_returns t x g f =
    let s : Shared = record { client = x.shared.client; built = x.shared.built; holder = none } in
    let e : x.shared ≡ s = rw f refl in
    let h : Holds s t (x.point t) = rw e at g.holds t in
    let (o, r) = solo_returns t x.shared.client x.shared.built (x.point t) h in
    (o, run-solo t six_moves x ∙ ap (λ y. (solo t six_moves (y, x.point t)).1) e ∙ r)

-- Between the lock's acquisition and its release.
unfoldable pub in_lock : Point → Bool
in_lock inside = true
in_lock building = true
in_lock leaving = true
in_lock p = false

-- The thread that holds the lock is on its way to release it.
unfoldable pub Releases : Shared → ℕ → Point → Type 0
Releases s u p = s.holder ≡ some u → in_lock p ≡ true

after_second-in_lock : (c : Option ℕ) → in_lock (after_second_test c) ≡ true
unfolding in_lock
after_second-in_lock none = refl
after_second-in_lock (some c) = refl

after_first-in_lock :
    (t : ℕ) (s : Shared) (c : Option ℕ) → ¬ (s.holder ≡ some t) → Releases s t (after_first_test c)
unfolding Releases
after_first-in_lock t s c n = λ e. absurd (n e)

acquire-Releases :
    (t : ℕ) (s : Shared) (o : Option ℕ)
    → ¬ (s.holder ≡ some t)
    → Releases (acquire t o s).0 t (acquire t o s).1
unfolding acquire Releases in_lock
acquire-Releases t s none n = λ e. refl
acquire-Releases t s (some u) n = λ e. absurd (n e)

outside :
    (t : ℕ) (s : Shared) (p : Point) → Releases s t p → in_lock p ≡ false → ¬ (s.holder ≡ some t)
unfolding Releases
outside t s p r f = λ e. let q = r e in cc

-- A move keeps this for its own thread.
advance-Releases :
    (t : ℕ) (s : Shared) (p : Point)
    → Releases s t p
    → Releases (advance t s p).0 t (advance t s p).1
unfolding advance Releases in_lock
advance-Releases t s begin r = after_first-in_lock t s s.client (outside t s begin r refl)
advance-Releases t s waiting r = acquire-Releases t s s.holder (outside t s waiting r refl)
advance-Releases t s inside r = λ e. after_second-in_lock s.client
advance-Releases t s building r = λ e. refl
advance-Releases t s leaving r = λ e. cc
advance-Releases t s reading r = λ e. absurd (outside t s reading r refl e)
advance-Releases t s (returned o) r = λ e. absurd (outside t s (returned o) r refl e)

acquire-holder :
    (t u : ℕ) (s : Shared) (o : Option ℕ)
    → (u == t) ≡ false
    → (acquire t o s).0.holder ≡ some u
    → s.holder ≡ some u
unfolding acquire
acquire-holder t u s none n e = let q : t ≡ u = cc in absurd (ground arith)
acquire-holder t u s (some v) n e = e

-- It gives the lock to no other.
advance-holder :
    (t u : ℕ) (s : Shared) (p : Point)
    → (u == t) ≡ false
    → (advance t s p).0.holder ≡ some u
    → s.holder ≡ some u
unfolding advance
advance-holder t u s begin n e = e
advance-holder t u s waiting n e = acquire-holder t u s s.holder n e
advance-holder t u s inside n e = e
advance-holder t u s building n e = e
advance-holder t u s leaving n e = cc
advance-holder t u s reading n e = e
advance-holder t u s (returned o) n e = e

pub AllRelease : System → Type 0
AllRelease x = (u : ℕ) → Releases x.shared u (x.point u)

step-AllRelease : (t : ℕ) (x : System) → AllRelease x → AllRelease (step t x)
unfolding step AllRelease Releases
step-AllRelease t x r = λ u. elim (Bool-cases (u == t)) [
  | inl e ↦
      let q : u ≡ t = ground arith in rw (e, q) (advance-Releases t x.shared (x.point t) (r t))
  | inr e ↦ rw e (λ h. r u (advance-holder t u x.shared (x.point t) e h))
]

run-AllRelease : (schedule : List ℕ) (x : System) → AllRelease x → AllRelease (run schedule x)
unfolding run
run-AllRelease [] x r = r
run-AllRelease (t ∷ schedule) x r = run-AllRelease schedule (step t x) (step-AllRelease t x r)

initial-AllRelease : AllRelease initial
unfolding AllRelease Releases
initial-AllRelease = λ u e. cc

abbrev three_moves : List (Unit {0})
three_moves = tt ∷ tt ∷ tt ∷ []

run-solo_shared :
    (t : ℕ) (us : List (Unit {0})) (x : System)
    → (run (map (λ u. t) us) x).shared ≡ (solo t us (x.shared, x.point t)).0
unfolding run solo
run-solo_shared t [] x = refl
run-solo_shared t (u ∷ us) x =
    run-solo_shared t us (step t x) ∙ ap (λ y. (solo t us y).0) (step_alone t x)

solo_releases :
    (t : ℕ) (c : Option ℕ) (n : ℕ) (p : Point)
    → in_lock p ≡ true
    → (solo t three_moves (record { client = c; built = n; holder = some t }, p)).0.holder ≡ none
unfolding solo advance in_lock
solo_releases t none n inside h = refl
solo_releases t (some c) n inside h = refl
solo_releases t c n building h = refl
solo_releases t c n leaving h = refl
solo_releases t c n begin h = cc
solo_releases t c n waiting h = cc
solo_releases t c n reading h = cc
solo_releases t c n (returned o) h = cc

releases :
    (u : ℕ) (x : System)
    → AllRelease x
    → x.shared.holder ≡ some u
    → (run (map (λ i. u) three_moves) x).shared.holder ≡ none
unfolding AllRelease Releases
releases u x r h =
    let s : Shared = record { client = x.shared.client; built = x.shared.built; holder = some u } in
    let e : x.shared ≡ s = rw h refl in
    ap (λ (y : Shared). y.holder) (run-solo_shared u three_moves x)
    ∙ ap (λ y. (solo u three_moves (y, x.point u)).0.holder) e
    ∙ solo_releases u x.shared.client x.shared.built (x.point u) (r u h)

-- Three accesses of the thread that holds the lock, if one does.
abbrev pub moves_of_holder : Option ℕ → List ℕ
moves_of_holder none = []
moves_of_holder (some u) = u ∷ u ∷ u ∷ []

freed :
    (o : Option ℕ) (x : System)
    → AllRelease x
    → x.shared.holder ≡ o
    → (run (moves_of_holder o) x).shared.holder ≡ none
unfolding run
freed none x r h = h
freed (some u) x r h = releases u x r h

run_lem : (a b : List ℕ) (x : System) → run (a ++ b) x ≡ run b (run a x)
unfolding run
run_lem [] b x = refl
run_lem (t ∷ a) b x = run_lem a b (step t x)

-- Whatever has happened before, and wherever a thread's call then stands: if the thread that holds the lock,
-- where one does, makes its next three accesses, and the call's own thread then makes six, with no other thread
-- between them, the call has returned the client.
pub get_client_returns :
    (schedule : List ℕ) (t : ℕ)
    → (run
          (moves_of_holder (run schedule initial).shared.holder ++ (t ∷ t ∷ t ∷ t ∷ t ∷ t ∷ []))
          (run schedule initial)).point
        t
      ≡ returned (some 0)
get_client_returns schedule t =
    let x = run schedule initial in
    let y = run (moves_of_holder x.shared.holder) x in
    let g = run-IsGood schedule initial initial-IsGood in
    let g' = run-IsGood (moves_of_holder x.shared.holder) x g in
    let f = freed x.shared.holder x (run-AllRelease schedule initial initial-AllRelease) refl in
    let (o, r) = free_returns t y g' f in
    let after = run-IsGood (t ∷ t ∷ t ∷ t ∷ t ∷ t ∷ []) y g' in
    ap (λ (z : System). z.point t)
      (run_lem (moves_of_holder x.shared.holder) (t ∷ t ∷ t ∷ t ∷ t ∷ t ∷ []) x)
    ∙ r
    ∙ ap returned (returned-Holds _ t _ o (after.holds t) r).1
