-- ===== src/Ledger/Overlap.antt =====
-- ledger/services/trade_service.py and cash_service.py under requests that overlap. A call runs in
-- pieces: the look-up of its key, the read of the price, and the block under `transaction.atomic()`. The
-- block is one piece: it holds the row lock of its portfolio, and the blocks of two portfolios have no
-- row in common but those of the unique key, on which an INSERT waits for the other block's end.
pub mod Pieces
pub mod Whole
pub mod Serial
pub mod Race
use djaskt_trading_app.Prelude.{
  ℕ, ◌≡◌, Bool, true, false, Option, none, some, List, [], ◌∷◌, ◌==◌, if◌then◌else◌,
}
use djaskt_trading_app.Prelude.Action.{Result, ok, err}
use djaskt_trading_app.Decimal.{Number, is_nonpositive, times}
use djaskt_trading_app.Ledger.Models.{
  Error, invalid_trade_request, invalid_operation, TradeType, trade_type_of, Direction,
  direction_of, Trade, CashTransaction, Db,
}
use djaskt_trading_app.Ledger.Price.{get_live_price}
use djaskt_trading_app.Ledger.Trade.{
  Env, TradeRequest, TradeInstance, TradeResult, of_row, find_trade, trade_block, execute_trade,
}
use djaskt_trading_app.Ledger.Cash.{
  TransferRequest, TransactionInstance, CashTransferResult, find_transaction, transfer_block,
  apply_transfer,
}
use djaskt_trading_app.Ledger.Cash as Cash

-- A request with what its call finds outside.
pub data Job : Type 0 where
  trade_job : Env → TradeRequest → Job
  transfer_job : Env → TransferRequest → Job

-- Where a call is between two pieces.
pub data Phase : Type 0 where
  waiting : Phase
  looked_up : TradeType → Phase
  priced : TradeType → Number → Number → Phase
  to_transfer : Direction → Phase
  traded : Result Error TradeResult → Phase
  transferred : Result Error CashTransferResult → Phase

-- The checks and the look-up of a trade.
unfoldable pub replay_or_go : TradeType → Option Trade → Phase
replay_or_go kind none = looked_up kind
replay_or_go kind (some t) = traded (ok (record { trade = of_row t; is_replay = true }))

unfoldable pub begin_trade : TradeRequest → Db → Phase
begin_trade r db = elim (trade_type_of r.trade_type) [
  | none ↦ traded (err invalid_trade_request)
  | some kind ↦
      if is_nonpositive r.quantity
      then traded (err invalid_trade_request)
      else replay_or_go kind (find_trade r.idempotency_key db)
]

-- The price and the total value.
unfoldable pub with_total : TradeType → Number → Option Number → Phase
with_total kind price none = traded (err invalid_operation)
with_total kind price (some total) = priced kind price total

unfoldable pub with_price : TradeRequest → TradeType → Result Error Number → Phase
with_price r kind (err e) = traded (err e)
with_price r kind (ok price) = with_total kind price (times r.quantity price)

unfoldable pub price_trade : Env → TradeRequest → TradeType → Phase
price_trade env r kind = with_price r kind (get_live_price env.parsers env.redis r.ticker)

-- The end of a block: what it wrote stays, unless it raised.
unfoldable pub trade_ends : Db → Result Error TradeInstance × Db → Phase × Db
trade_ends db (ok t, db') = (traded (ok (record { trade = t; is_replay = false })), db')
trade_ends db (err e, _) = (traded (err e), db)

unfoldable pub commit_trade : Env → TradeRequest → TradeType → Number → Number → Db → Phase × Db
commit_trade env r kind price total db =
    trade_ends db (trade_block env r kind (env.parsers.upper r.ticker) price total db)

unfoldable pub replay_or_transfer : Direction → Option CashTransaction → Phase
replay_or_transfer direction none = to_transfer direction
replay_or_transfer direction (some t) =
    transferred (ok (record { transaction = Cash.of_row t; is_replay = true }))

unfoldable pub begin_transfer : TransferRequest → Db → Phase
begin_transfer r db = elim (direction_of r.direction) [
  | none ↦ transferred (err invalid_trade_request)
  | some direction ↦
      if is_nonpositive r.amount
      then transferred (err invalid_trade_request)
      else replay_or_transfer direction (find_transaction r.idempotency_key db)
]

unfoldable pub transfer_ends : Db → Result Error TransactionInstance × Db → Phase × Db
transfer_ends db (ok t, db') =
    (transferred (ok (record { transaction = t; is_replay = false })), db')
transfer_ends db (err e, _) = (transferred (err e), db)

unfoldable pub commit_transfer : Env → TransferRequest → Direction → Db → Phase × Db
commit_transfer env r direction db = transfer_ends db (transfer_block env r direction db)

-- The next piece of a call; a finished call has none.
unfoldable pub advance : Job → Phase → Db → Phase × Db
advance (trade_job env r) waiting db = (begin_trade r db, db)
advance (trade_job env r) (looked_up kind) db = (price_trade env r kind, db)
advance (trade_job env r) (priced kind price total) db = commit_trade env r kind price total db
advance (transfer_job env r) waiting db = (begin_transfer r db, db)
advance (transfer_job env r) (to_transfer direction) db = commit_transfer env r direction db
advance _ p db = (p, db)

-- A call whose pieces run with nothing between them.
unfoldable pub alone : Job → Phase × Db → Phase × Db
alone job (p, db) =
    let (p₁, db₁) = advance job p db in let (p₂, db₂) = advance job p₁ db₁ in advance job p₂ db₂

-- How many trades or transfers of its own a call has made: one if it has returned it as fresh.
unfoldable pub made : Phase → ℕ
made (traded (ok res)) = if res.is_replay then 0 else 1
made (transferred (ok res)) = if res.is_replay then 0 else 1
made _ = 0

-- Any number of calls: each has its job and its phase.
pub record System : Type 0 where
  pub db : Db
  pub phase : ℕ → Phase

abbrev pub update : (ℕ → Phase) → ℕ → Phase → ℕ → Phase
update f i p j = if j == i then p else f j

-- Call `i` goes one piece further.
abbrev pub after : System → ℕ → Phase × Db → System
after s i (p, db) = record { db = db; phase = update s.phase i p }

unfoldable pub step : (ℕ → Job) → ℕ → System → System
step jobs i s = after s i (advance (jobs i) (s.phase i) s.db)

-- A schedule names the call that goes on next.
unfoldable pub run : (ℕ → Job) → List ℕ → System → System
run jobs [] s = s
run jobs (i ∷ schedule) s = run jobs schedule (step jobs i s)

abbrev pub start : Db → System
start db = record { db = db; phase = λ i. waiting }

abbrev pub trade_end : Result Error TradeResult × Db → Phase × Db
trade_end (x, d) = (traded x, d)

abbrev pub transfer_end : Result Error CashTransferResult × Db → Phase × Db
transfer_end (x, d) = (transferred x, d)

-- A call as a whole: where it ends, and the tables that it leaves.
unfoldable pub whole : Job → Db → Phase × Db
whole (trade_job env r) db = trade_end (execute_trade env r db)
whole (transfer_job env r) db = transfer_end (apply_transfer env r db)

-- The calls one after the other, each as a whole.
unfoldable pub perform : Job → Db → Db
perform job db = (whole job db).1

unfoldable pub perform_all : List Job → Db → Db
perform_all [] db = db
perform_all (job ∷ jobs) db = perform_all jobs (perform job db)
