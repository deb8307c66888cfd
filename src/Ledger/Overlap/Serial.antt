-- ===== src/Ledger/Overlap/Serial.antt =====
-- Overlapping calls leave the tables as some of them do one after the other.
use mathlib.Core.Path.{subst}
use djaskt_trading_app.Prelude.Rows.{All, count}
use djaskt_trading_app.Prelude.{
  eq_refl, true, false, if◌then◌else◌, suc, ◌+◌, ℕ, ap, sym, refl, ◌∙◌, ◌≡◌, ◌⊎◌, inl, inr, arith,
  ◌==◌, Bool-cases, List, [], ◌∷◌, map,
}
use djaskt_trading_app.Ledger.Models.{Db}
use djaskt_trading_app.Ledger.Column.{IsColumn}
use djaskt_trading_app.Ledger.Invariant.{IsSound}
use djaskt_trading_app.Ledger.Trade.Safety.{execute_trade-IsSound}
use djaskt_trading_app.Ledger.Cash.Laws.{apply_transfer-IsSound}
use djaskt_trading_app.Ledger.Overlap.{
  Job, trade_job, transfer_job, waiting, advance, System, update, after, step, run, start, whole,
  perform, perform_all, made, Phase,
}
use djaskt_trading_app.Ledger.Overlap.Pieces.{Honest, advance-Changes, advance-made}

-- A schedule with some of its entries left out.
pub data Part : List ℕ → List ℕ → Type 0 where
  nothing : Part [] []
  skips : {done schedule : List ℕ} (i : ℕ) → Part done schedule → Part done (i ∷ schedule)
  takes : {done schedule : List ℕ} (i : ℕ) → Part done schedule → Part (i ∷ done) (i ∷ schedule)

-- Where calls end that are done one after the other.
unfoldable pub results : (ℕ → Job) → List ℕ → Db → List (ℕ × Phase)
results jobs [] db = []
results jobs (i ∷ done) db = (i, (whole (jobs i) db).0) ∷ results jobs done (perform (jobs i) db)

-- A schedule that has led from one moment to another: the tables are those that whole calls leave, done one after the
-- other, of calls that the schedule names and in its order. Each call is done as often as it has made a trade or transfer
-- in between, and ends with the result that it returns there.
pub record IsSerial (jobs : ℕ → Job) (schedule : List ℕ) (before after : System) : Type 0 where
  pub done : List ℕ
  pub part : Part done schedule
  pub same : after.db ≡ perform_all (map jobs done) before.db
  pub counted : (i : ℕ) → count (λ j. j == i) done + made (before.phase i) ≡ made (after.phase i)
  pub returned : All (λ (r : ℕ × Phase). after.phase r.0 ≡ r.1) (results jobs done before.db)

update-Honest :
    (jobs : ℕ → Job) (f : ℕ → Phase) (i : ℕ) (p : Phase)
    → Honest (jobs i) p
    → ((j : ℕ) → Honest (jobs j) (f j))
    → (j : ℕ) → Honest (jobs j) (update f i p j)
update-Honest jobs f i p h all j = elim (Bool-cases (j == i)) [
  | inl y ↦ let e : j ≡ i = ground arith in rw (y, e) h
  | inr n ↦ rw n (all j)
]

-- How many trades the moved call and the others have made.
update-made :
    (f : ℕ → Phase) (i j k : ℕ) (p : Phase)
    → made p ≡ k + made (f i)
    → made (update f i p j) ≡ (if i == j then k else 0) + made (f j)
update-made f i j k p h = elim (Bool-cases (j == i)) [
  | inl y ↦
      let e : j ≡ i = ground arith in
      let s : (i == j) ≡ true = ground arith in
      let h' : made p ≡ k + made (f j) = rw e h in rw (y, s) h'
  | inr n ↦ let s : (i == j) ≡ false = ground arith in rw (n, s) (omega arith)
]

module _ (jobs : ℕ → Job) where
  first_done :
      (i : ℕ) (schedule : List ℕ) (s last : System) (x : Phase × Db)
      → ((x.1 ≡ s.db) × (made x.0 ≡ made (s.phase i)))
        ⊎ ((x ≡ whole (jobs i) s.db) × (made x.0 ≡ suc (made (s.phase i))))
      → ((k : ℕ) → made x.0 ≡ suc k → last.phase i ≡ x.0)
      → IsSerial jobs schedule (after s i x) last
      → IsSerial jobs (i ∷ schedule) s last
  unfolding perform_all perform results
  first_done i schedule s last x (inl (e, m)) k r = record {
    done = r.done;
    part = skips i r.part;
    same = r.same ∙ ap (perform_all (map jobs r.done)) e;
    counted = λ j.
        let c = r.counted j in let u = update-made s.phase i j 0 x.0 (omega arith) in ground arith;
    returned =
        subst (λ d. All (λ (t : ℕ × Phase). last.phase t.0 ≡ t.1) (results jobs r.done d)) e
          r.returned;
  }
  first_done i schedule s last x (inr (e, m)) k r = record {
    done = i ∷ r.done;
    part = takes i r.part;
    same = r.same ∙ ap (λ (w : Phase × Db). perform_all (map jobs r.done) w.1) e;
    counted = λ j.
        let c = r.counted j in let u = update-made s.phase i j 1 x.0 (omega arith) in ground arith;
    returned = (
      k (made (s.phase i)) m ∙ ap (λ (w : Phase × Db). w.0) e,
      subst
          (λ (w : Phase × Db).
            All (λ (t : ℕ × Phase). last.phase t.0 ≡ t.1) (results jobs r.done w.1))
          e r.returned,
    );
  }

  step-stays :
      (i j k : ℕ) (s : System) → made (s.phase i) ≡ suc k → (step jobs j s).phase i ≡ s.phase i
  unfolding step
  step-stays i j k s m = elim (Bool-cases (i == j)) [
    | inl y ↦ let e : j ≡ i = ground arith in rw (y, e) (advance-made (jobs i) (s.phase i) s.db k m)
    | inr n ↦ rw n refl
  ]

  run-stays :
      (schedule : List ℕ) (i k : ℕ) (s : System)
      → made (s.phase i) ≡ suc k
      → (run jobs schedule s).phase i ≡ s.phase i
  unfolding run
  run-stays [] i k s m = refl
  run-stays (j ∷ schedule) i k s m =
      let e = step-stays i j k s m in run-stays schedule i k (step jobs j s) (ap made e ∙ m) ∙ e

  run-IsSerial :
      (schedule : List ℕ) (s : System)
      → ((j : ℕ) → Honest (jobs j) (s.phase j))
      → IsSerial jobs schedule s (run jobs schedule s)
  unfolding run step perform_all results
  run-IsSerial [] s h = record {
    done = [];
    part = nothing;
    same = refl;
    counted = λ i. omega arith;
    returned = tt;
  }
  run-IsSerial (i ∷ schedule) s h =
      let (honest, changed) = advance-Changes (jobs i) (s.phase i) s.db (h i) in
      let x = advance (jobs i) (s.phase i) s.db in
      first_done i schedule s (run jobs (i ∷ schedule) s) x changed
        (λ k m. run-stays schedule i k (after s i x) (rw (eq_refl i) m) ∙ rw (eq_refl i) refl)
        (run-IsSerial schedule (after s i x) (update-Honest jobs s.phase i x.0 honest h))

  -- Under any schedule of any number of overlapping trades and transfers, the tables end as they do when some of the
  -- calls run as a whole, one after the other, in the schedule's order. These are the calls that have returned a fresh
  -- trade or transfer, each of them once, and what each has returned is what it returns there.
  pub overlap-IsSerial :
      (schedule : List ℕ) (db : Db)
      → IsSerial jobs schedule (start db) (run jobs schedule (start db))
  overlap-IsSerial schedule db = run-IsSerial schedule (start db) (λ j. any_waiting (jobs j))
    where
      any_waiting : (job : Job) → Honest job waiting
      any_waiting (trade_job env r) = tt
      any_waiting (transfer_job env r) = tt

  -- The columns of every call are those of one database.
  abbrev pub HasColumn : Job → Type 0
  HasColumn (trade_job env r) = IsColumn env.store
  HasColumn (transfer_job env r) = IsColumn env.store

  perform-IsSound : (job : Job) (db : Db) → HasColumn job → IsSound db → IsSound (perform job db)
  unfolding perform whole
  perform-IsSound (trade_job env r) db c s = execute_trade-IsSound env r db c s
  perform-IsSound (transfer_job env r) db c s = apply_transfer-IsSound env r db c s

  perform_all-IsSound :
      (done : List ℕ) (db : Db)
      → ((j : ℕ) → HasColumn (jobs j))
      → IsSound db
      → IsSound (perform_all (map jobs done) db)
  unfolding perform_all
  perform_all-IsSound [] db c s = s
  perform_all-IsSound (i ∷ done) db c s =
      perform_all-IsSound done (perform (jobs i) db) c (perform-IsSound (jobs i) db (c i) s)

  -- Well-formed tables stay well formed under any schedule of overlapping calls: no balance and no
  -- holding is ever negative, and no idempotency key is there twice.
  pub overlap-IsSound :
      (schedule : List ℕ) (db : Db)
      → ((j : ℕ) → HasColumn (jobs j))
      → IsSound db
      → IsSound (run jobs schedule (start db)).db
  overlap-IsSound schedule db c s =
      let r = overlap-IsSerial schedule db in
      subst IsSound (sym r.same) (perform_all-IsSound r.done db c s)
