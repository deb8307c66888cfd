-- ===== src/Ledger/Overlap/Whole.antt =====
-- The pieces of a call, with no other call between them, are the whole call.
use djaskt_trading_app.Prelude.{
  ap, sym, refl, ◌∙◌, ◌≡◌, inl, inr, true, false, Bool-cases, Option-cases,
}
use djaskt_trading_app.Prelude.Action.{Result-cases, Result, ok, err, outcome}
use djaskt_trading_app.Decimal.{Number, is_nonpositive, times}
use djaskt_trading_app.Ledger.Models.{
  Error, invalid_trade_request, invalid_operation, TradeType, trade_type_of, Direction,
  direction_of, Db,
}
use djaskt_trading_app.Ledger.Price.{get_live_price}
use djaskt_trading_app.Ledger.Trade.{
  Env, TradeRequest, TradeResult, of_row, find_trade, trade_block, fresh_trade, execute_trade,
}
use djaskt_trading_app.Ledger.Cash.{
  TransferRequest, TransactionInstance, CashTransferResult, find_transaction, transfer_block,
  apply_transfer,
}
use djaskt_trading_app.Ledger.Cash as Cash
use djaskt_trading_app.Ledger.Overlap.{
  Job, trade_job, transfer_job, Phase, waiting, looked_up, priced, to_transfer, traded, transferred,
  replay_or_go, begin_trade, with_total, with_price, price_trade, trade_ends, commit_trade,
  replay_or_transfer, begin_transfer, transfer_ends, commit_transfer, advance, alone, trade_end,
  transfer_end,
}

-- Three pieces, given one by one.
alone-by :
    (job : Job) (db : Db) (x y : Phase × Db) {z : Phase × Db}
    → advance job waiting db ≡ x
    → advance job x.0 x.1 ≡ y
    → advance job y.0 y.1 ≡ z
    → alone job (waiting, db) ≡ z
unfolding alone
alone-by job db x y e f g =
    ap (λ (w : Phase × Db). advance job (advance job w.0 w.1).0 (advance job w.0 w.1).1) e
    ∙ ap (λ (w : Phase × Db). advance job w.0 w.1) f
    ∙ g

-- The three ways through a trade: it ends at the look-up, at the price, or at the block.
module _ (env : Env) (r : TradeRequest) (db : Db) where
  abbrev IsWhole : Type 0
  IsWhole = alone (trade_job env r) (waiting, db) ≡ trade_end (execute_trade env r db)

  by_look_up :
      (x : Result Error TradeResult)
      → begin_trade r db ≡ traded x
      → execute_trade env r db ≡ (x, db)
      → IsWhole
  unfolding advance
  by_look_up x e w =
      alone-by (trade_job env r) db (traded x, db) (traded x, db) (ap (λ p. (p, db)) e) refl refl
      ∙ sym (ap trade_end w)

  by_price :
      (kind : TradeType) (x : Result Error TradeResult)
      → begin_trade r db ≡ looked_up kind
      → price_trade env r kind ≡ traded x
      → execute_trade env r db ≡ (x, db)
      → IsWhole
  unfolding advance
  by_price kind x e f w =
      alone-by (trade_job env r) db (looked_up kind, db) (traded x, db) (ap (λ p. (p, db)) e)
        (ap (λ p. (p, db)) f) refl
      ∙ sym (ap trade_end w)

  by_block :
      (kind : TradeType) (price total : Number) (x : Result Error TradeResult × Db)
      → begin_trade r db ≡ looked_up kind
      → price_trade env r kind ≡ priced kind price total
      → commit_trade env r kind price total db ≡ trade_end x
      → execute_trade env r db ≡ x
      → IsWhole
  unfolding advance
  by_block kind price total x e f g w =
      alone-by (trade_job env r) db (looked_up kind, db) (priced kind price total, db)
        (ap (λ p. (p, db)) e) (ap (λ p. (p, db)) f) g
      ∙ sym (ap trade_end w)

  -- The three pieces of a trade, with no other call's piece between them, give the result of
  -- `execute_trade`, and leave the tables as it does.
  pub alone-eq-execute_trade :
      alone (trade_job env r) (waiting, db)
      ≡ (traded (execute_trade env r db).0, (execute_trade env r db).1)
  unfolding begin_trade replay_or_go price_trade with_price with_total commit_trade trade_ends
      execute_trade fresh_trade
  alone-eq-execute_trade = elim (Option-cases (trade_type_of r.trade_type)) [
    | inl n ↦ by_look_up (err invalid_trade_request) (rw (n, begin_trade) refl) (rw n refl)
    | inr (kind, k) ↦ elim (Bool-cases (is_nonpositive r.quantity)) [
      | inl q ↦
          by_look_up (err invalid_trade_request) (rw (k, q, begin_trade) refl) (rw (k, q) refl)
      | inr q ↦ elim (Option-cases (find_trade r.idempotency_key db)) [
        | inr (t, f) ↦
            by_look_up (ok (record { trade = of_row t; is_replay = true }))
              (rw (k, q, f, begin_trade) refl) (rw (k, q, f) refl)
        | inl f ↦ elim (Result-cases (get_live_price env.parsers env.redis r.ticker)) [
          | inr (e, p) ↦
              by_price kind (err e) (rw (k, q, f, begin_trade) refl) (rw (p, price_trade) refl)
                (rw (k, q, f, p) refl)
          | inl (price, p) ↦ elim (Option-cases (times r.quantity price)) [
            | inl t ↦
                by_price kind (err invalid_operation) (rw (k, q, f, begin_trade) refl)
                  (rw (p, t, price_trade) refl) (rw (k, q, f, p, t) refl)
            | inr (total, t) ↦
                elim (outcome
                  (trade_block env r kind (env.parsers.upper r.ticker) price total db)) [
                    | inr (e, db', b) ↦
                        by_block kind price total (err e, db) (rw (k, q, f, begin_trade) refl)
                          (rw (p, t, price_trade) refl) (rw (b, commit_trade) refl)
                          (rw (k, q, f, p, t, b) refl)
                    | inl (i, db', b) ↦
                        by_block kind price total
                          (ok (record { trade = i; is_replay = false }), db')
                          (rw (k, q, f, begin_trade) refl) (rw (p, t, price_trade) refl)
                          (rw (b, commit_trade) refl) (rw (k, q, f, p, t, b) refl)
                  ]
          ]
        ]
      ]
    ]
  ]

module _ (env : Env) (r : TransferRequest) (db : Db) where
  abbrev IsWholeTransfer : Type 0
  IsWholeTransfer =
      alone (transfer_job env r) (waiting, db) ≡ transfer_end (apply_transfer env r db)

  transfer_by_look_up :
      (x : Result Error CashTransferResult)
      → begin_transfer r db ≡ transferred x
      → apply_transfer env r db ≡ (x, db)
      → IsWholeTransfer
  unfolding advance
  transfer_by_look_up x e w =
      alone-by (transfer_job env r) db (transferred x, db) (transferred x, db) (ap (λ p. (p, db)) e)
        refl refl
      ∙ sym (ap transfer_end w)

  transfer_by_block :
      (direction : Direction) (x : Result Error CashTransferResult × Db)
      → begin_transfer r db ≡ to_transfer direction
      → commit_transfer env r direction db ≡ transfer_end x
      → apply_transfer env r db ≡ x
      → IsWholeTransfer
  unfolding advance
  transfer_by_block direction x e f w =
      alone-by (transfer_job env r) db (to_transfer direction, db) (transfer_end x)
        (ap (λ p. (p, db)) e) f refl
      ∙ sym (ap transfer_end w)

  -- The pieces of a transfer, with no other call's piece between them, give the result of
  -- `apply_transfer`, and leave the tables as it does.
  pub alone-eq-apply_transfer : IsWholeTransfer
  unfolding begin_transfer replay_or_transfer commit_transfer transfer_ends apply_transfer
  alone-eq-apply_transfer = elim (Option-cases (direction_of r.direction)) [
    | inl n ↦
        transfer_by_look_up (err invalid_trade_request) (rw (n, begin_transfer) refl) (rw n refl)
    | inr (d, k) ↦ elim (Bool-cases (is_nonpositive r.amount)) [
      | inl q ↦
          transfer_by_look_up (err invalid_trade_request) (rw (k, q, begin_transfer) refl)
            (rw (k, q) refl)
      | inr q ↦ elim (Option-cases (find_transaction r.idempotency_key db)) [
        | inr (t, f) ↦
            transfer_by_look_up (ok (record { transaction = Cash.of_row t; is_replay = true }))
              (rw (k, q, f, begin_transfer) refl) (rw (k, q, f) refl)
        | inl f ↦ elim (outcome (transfer_block env r d db)) [
          | inr (e, db', b) ↦
              transfer_by_block d (err e, db) (rw (k, q, f, begin_transfer) refl)
                (rw (b, commit_transfer) refl) (rw (k, q, f, b) refl)
          | inl (i, db', b) ↦
              transfer_by_block d (ok (record { transaction = i; is_replay = false }), db')
                (rw (k, q, f, begin_transfer) refl) (rw (b, commit_transfer) refl)
                (rw (k, q, f, b) refl)
        ]
      ]
    ]
  ]
