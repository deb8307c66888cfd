-- ===== src/Ledger/Overlap/Pieces.antt =====
-- What each piece of a call does to the tables.
use djaskt_trading_app.Prelude.{
  ℕ, suc, String, ap, sym, refl, ◌≡◌, ◌⊎◌, inl, inr, arith, false, Bool-cases, none, some,
  Option-cases,
}
use djaskt_trading_app.Prelude.Action.{Result-cases, ok, outcome}
use djaskt_trading_app.Decimal.{Number, is_nonpositive, times}
use djaskt_trading_app.Ledger.Models.{TradeType, trade_type_of, Direction, direction_of, Db}
use djaskt_trading_app.Ledger.Price.{get_live_price}
use djaskt_trading_app.Ledger.Trade.{
  Env, TradeRequest, TradeInstance, find_trade, trade_block, fresh_trade, execute_trade,
}
use djaskt_trading_app.Ledger.Trade.Outcome.{IsWellFormed}
use djaskt_trading_app.Ledger.Trade.Effect.{trade_block-eq-ok}
use djaskt_trading_app.Ledger.Cash.{
  TransferRequest, TransactionInstance, find_transaction, transfer_block, apply_transfer,
}
use djaskt_trading_app.Ledger.Cash.Effect as CashEffect
use djaskt_trading_app.Ledger.Cash.Effect.{Transferred, transfer_block-eq-ok}
use djaskt_trading_app.Ledger.Overlap.{
  Job, trade_job, transfer_job, Phase, waiting, looked_up, priced, to_transfer, traded, transferred,
  replay_or_go, begin_trade, with_total, with_price, price_trade, trade_ends, commit_trade,
  replay_or_transfer, begin_transfer, transfer_ends, commit_transfer, advance, whole, made,
  trade_end, transfer_end,
}

-- What a phase says of its call.
abbrev pub Honest : Job → Phase → Type 0
Honest (trade_job env r) (looked_up kind) = IsWellFormed r kind
Honest (trade_job env r) (priced kind price total) =
    IsWellFormed r kind
    × (get_live_price env.parsers env.redis r.ticker ≡ ok price)
    × (times r.quantity price ≡ some total)
Honest (transfer_job env r) (to_transfer direction) = CashEffect.IsWellFormed r direction
Honest _ _ = Unit

begin_trade-Honest :
    (env : Env) (r : TradeRequest) (db : Db)
    → Honest (trade_job env r) (begin_trade r db) × (made (begin_trade r db) ≡ 0)
unfolding begin_trade replay_or_go made
begin_trade-Honest env r db = elim (Option-cases (trade_type_of r.trade_type)) [
  | inl n ↦ rw (n, begin_trade, Honest) (tt, refl)
  | inr (kind, k) ↦ elim (Bool-cases (is_nonpositive r.quantity)) [
    | inl q ↦ rw (k, q, begin_trade, Honest) (tt, refl)
    | inr q ↦ elim (Option-cases (find_trade r.idempotency_key db)) [
      | inl f ↦ rw (k, q, f, begin_trade, Honest) (record { known = k; positive = q }, refl)
      | inr (t, f) ↦ rw (k, q, f, begin_trade, Honest) (tt, refl)
    ]
  ]
]

price_trade-Honest :
    (env : Env) (r : TradeRequest) (kind : TradeType)
    → IsWellFormed r kind
    → Honest (trade_job env r) (price_trade env r kind) × (made (price_trade env r kind) ≡ 0)
unfolding price_trade with_price with_total made
price_trade-Honest env r kind w =
    elim (Result-cases (get_live_price env.parsers env.redis r.ticker)) [
      | inr (e, p) ↦ rw (p, Honest) (tt, refl)
      | inl (price, p) ↦ elim (Option-cases (times r.quantity price)) [
        | inl t ↦ rw (p, t, Honest) (tt, refl)
        | inr (total, t) ↦ rw (p, t, Honest) ((w, p, t), refl)
      ]
    ]

begin_transfer-Honest :
    (env : Env) (r : TransferRequest) (db : Db)
    → Honest (transfer_job env r) (begin_transfer r db) × (made (begin_transfer r db) ≡ 0)
unfolding begin_transfer replay_or_transfer made
begin_transfer-Honest env r db = elim (Option-cases (direction_of r.direction)) [
  | inl n ↦ rw (n, begin_transfer, Honest) (tt, refl)
  | inr (direction, k) ↦ elim (Bool-cases (is_nonpositive r.amount)) [
    | inl q ↦ rw (k, q, begin_transfer, Honest) (tt, refl)
    | inr q ↦ elim (Option-cases (find_transaction r.idempotency_key db)) [
      | inl f ↦ rw (k, q, f, begin_transfer, Honest) (record { known = k; positive = q }, refl)
      | inr (t, f) ↦ rw (k, q, f, begin_transfer, Honest) (tt, refl)
    ]
  ]
]

-- A block that commits found no entry under its key.
pub trade_block-is_new :
    (env : Env) (r : TradeRequest) (kind : TradeType) (ticker : String) (price total : Number)
    (db db' : Db) (t : TradeInstance)
    → trade_block env r kind ticker price total db ≡ (ok t, db')
    → find_trade r.idempotency_key db ≡ none
trade_block-is_new env r kind ticker price total db db' t b =
    let c = trade_block-eq-ok env r kind ticker price total db b in
    let key = ap (λ (i : TradeInstance). i.idempotency_key) c.made in
    let trades = ap (λ (d : Db). d.trades) c.moved in let new = c.inserted.is_new in ground arith

-- What a piece does to the tables: nothing, or what its whole call would do at that moment, and then it has made its
-- trade or transfer and ends as that call would.
abbrev pub Changes : Job → Phase → Db → Phase × Db → Type 0
Changes job p db x =
    Honest job x.0
    × (((x.1 ≡ db) × (made x.0 ≡ made p)) ⊎ ((x ≡ whole job db) × (made x.0 ≡ suc (made p))))

module _ (env : Env) (r : TradeRequest) (kind : TradeType) (price total : Number) (db : Db) where
  perform_trade :
      (t : TradeInstance) (db' : Db)
      → Honest (trade_job env r) (priced kind price total)
      → trade_block env r kind (env.parsers.upper r.ticker) price total db ≡ (ok t, db')
      → whole (trade_job env r) db ≡ (traded (ok (record { trade = t; is_replay = false })), db')
  unfolding whole execute_trade fresh_trade
  perform_trade t db' (w, p, m) b =
      let n = trade_block-is_new env r kind _ price total db db' t b in
      let e : execute_trade env r db ≡ (ok (record { trade = t; is_replay = false }), db') =
        rw (w.known, w.positive, n, p, m, b) refl in
      ap trade_end e

  commit_trade-Changes :
      Honest (trade_job env r) (priced kind price total)
      → Changes
          (trade_job env r)
          (priced kind price total)
          db
          (commit_trade env r kind price total db)
  unfolding commit_trade trade_ends made
  commit_trade-Changes h =
      elim (outcome (trade_block env r kind (env.parsers.upper r.ticker) price total db)) [
        | inr (e, db', b) ↦ rw (b, Honest) (tt, inl (refl, refl))
        | inl (t, db', b) ↦ rw (b, Honest) (tt, inr (sym (perform_trade t db' h b), refl))
      ]

transfer_block-is_new :
    (env : Env) (r : TransferRequest) (direction : Direction) (db db' : Db)
    (t : TransactionInstance)
    → transfer_block env r direction db ≡ (ok t, db')
    → find_transaction r.idempotency_key db ≡ none
transfer_block-is_new env r direction db db' t b =
    let c = transfer_block-eq-ok env r direction db b in
    let key = ap (λ (i : TransactionInstance). i.idempotency_key) c.made in
    let entries = ap (λ (d : Db). d.cash_transactions) c.moved in
    let new = c.inserted.is_new in ground arith

module _ (env : Env) (r : TransferRequest) (direction : Direction) (db : Db) where
  perform_transfer :
      (t : TransactionInstance) (db' : Db)
      → CashEffect.IsWellFormed r direction
      → transfer_block env r direction db ≡ (ok t, db')
      → whole (transfer_job env r) db
        ≡ (transferred (ok (record { transaction = t; is_replay = false })), db')
  unfolding whole apply_transfer
  perform_transfer t db' w b =
      let n = transfer_block-is_new env r direction db db' t b in
      let e : apply_transfer env r db ≡ (ok (record { transaction = t; is_replay = false }), db') =
        rw (w.known, w.positive, n, b) refl in
      ap transfer_end e

  commit_transfer-Changes :
      CashEffect.IsWellFormed r direction
      → Changes (transfer_job env r) (to_transfer direction) db (commit_transfer env r direction db)
  unfolding commit_transfer transfer_ends made
  commit_transfer-Changes h = elim (outcome (transfer_block env r direction db)) [
    | inr (e, db', b) ↦ rw (b, Honest) (tt, inl (refl, refl))
    | inl (t, db', b) ↦ rw (b, Honest) (tt, inr (sym (perform_transfer t db' h b), refl))
  ]

-- Every piece is honest of its call, and changes the tables as the whole call would, or not at all.
pub advance-Changes :
    (job : Job) (p : Phase) (db : Db) → Honest job p → Changes job p db (advance job p db)
unfolding advance made
advance-Changes (trade_job env r) waiting db h =
    let b = begin_trade-Honest env r db in (b.0, inl (refl, b.1))
advance-Changes (trade_job env r) (looked_up kind) db h =
    let b = price_trade-Honest env r kind h in (b.0, inl (refl, b.1))
advance-Changes (trade_job env r) (priced kind price total) db h =
    commit_trade-Changes env r kind price total db h
advance-Changes (trade_job env r) (to_transfer d) db h = (h, inl (refl, refl))
advance-Changes (trade_job env r) (traded x) db h = (h, inl (refl, refl))
advance-Changes (trade_job env r) (transferred x) db h = (h, inl (refl, refl))
advance-Changes (transfer_job env r) waiting db h =
    let b = begin_transfer-Honest env r db in (b.0, inl (refl, b.1))
advance-Changes (transfer_job env r) (to_transfer d) db h = commit_transfer-Changes env r d db h
advance-Changes (transfer_job env r) (looked_up kind) db h = (h, inl (refl, refl))
advance-Changes (transfer_job env r) (priced kind price total) db h = (h, inl (refl, refl))
advance-Changes (transfer_job env r) (traded x) db h = (h, inl (refl, refl))
advance-Changes (transfer_job env r) (transferred x) db h = (h, inl (refl, refl))

-- A call that has made its trade or transfer stays as it is.
pub advance-made :
    (job : Job) (p : Phase) (db : Db) (k : ℕ) → made p ≡ suc k → (advance job p db).0 ≡ p
unfolding advance made
advance-made (trade_job env r) waiting db k m = absurd (omega arith)
advance-made (trade_job env r) (looked_up kind) db k m = absurd (omega arith)
advance-made (trade_job env r) (priced kind price total) db k m = absurd (omega arith)
advance-made (trade_job env r) (to_transfer d) db k m = refl
advance-made (trade_job env r) (traded x) db k m = refl
advance-made (trade_job env r) (transferred x) db k m = refl
advance-made (transfer_job env r) waiting db k m = absurd (omega arith)
advance-made (transfer_job env r) (to_transfer d) db k m = absurd (omega arith)
advance-made (transfer_job env r) (looked_up kind) db k m = refl
advance-made (transfer_job env r) (priced kind price total) db k m = refl
advance-made (transfer_job env r) (traded x) db k m = refl
advance-made (transfer_job env r) (transferred x) db k m = refl
