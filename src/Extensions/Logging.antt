-- ===== src/Extensions/Logging.antt =====
-- extensions/logger.py: `configure_logging`, with what it uses of Python's `logging`: a root logger of a
-- level, handlers and filters, queues, and listeners, each a thread that prints what its queue gets.
pub mod Laws
use djaskt_trading_app.Prelude.{
  ℕ, suc, ◌==◌, ◌&&◌, Bool, true, false, Option, none, some, List, [], ◌∷◌, ◌++◌, map, leb,
  if◌then◌else◌,
}
use djaskt_trading_app.Prelude.Rows.{exclude, filter}
use djaskt_trading_app.Brokerage.Json.{Fields}
use djaskt_trading_app.Extensions.Context.{RequestLogMetadata}
use djaskt_trading_app.Extensions.Logger.{attach}

-- The keyword arguments; the fields are the `service_info` that the formatter keeps.
pub record Options : Type 0 where
  pub service_info : Fields
  pub level : ℕ

-- A queue is told apart by the number of queues that were made before it.
pub record Listener : Type 0 where
  pub queue : ℕ
  pub service_info : Fields

pub data Handler : Type 0 where
  -- a `QueueHandler` under `ECSContextFilter`
  queue_handler : ℕ → Handler
  -- a handler of another library
  other_handler : ℕ → Handler

-- Whether a filter lets a record of these fields through.
abbrev pub Filter : Type 0
Filter = Fields → Bool

-- The process: the root logger, `_listener`, the listeners whose threads run, the number of queues that
-- were made, and the listeners that `atexit` will stop, the latest first.
pub record Process : Type 0 where
  pub level : ℕ
  pub handlers : List Handler
  pub filters : List Filter
  pub listener : Option Listener
  pub running : List Listener
  pub queues : ℕ
  pub at_exit : List Listener

-- `listener.stop()`: its thread ends.
abbrev pub reads_queue : ℕ → Listener → Bool
reads_queue queue l = l.queue == queue

unfoldable pub stop : Listener → Process → Process
stop l p = record p { running = exclude (reads_queue l.queue) p.running }

-- `if _listener is not None: _listener.stop(); _listener = None`
unfoldable pub stop_listener : Option Listener → Process → Process
stop_listener none p = p
stop_listener (some l) p = record (stop l p) { listener = none }

-- The rest: a level, no handlers or filters, and then one queue, its handler and its listener.
unfoldable pub install : Options → Process → Process
install o p =
    let l : Listener = record { queue = p.queues; service_info = o.service_info } in
    record {
      level = o.level;
      handlers = queue_handler p.queues ∷ [];
      filters = [];
      listener = some l;
      running = l ∷ p.running;
      queues = suc p.queues;
      at_exit = l ∷ p.at_exit;
    }

unfoldable pub configure_logging : Options → Process → Process
configure_logging o p = install o (stop_listener p.listener p)

-- The calls in their order.
unfoldable pub configure_each : List Options → Process → Process
configure_each [] p = p
configure_each (o ∷ options) p = configure_each options (configure_logging o p)

-- At the end of the process.
unfoldable pub exit : List Listener → Process → Process
exit [] p = p
exit (l ∷ ls) p = exit ls (stop l p)

-- A line: the record with what the filter attached, and the service that the formatter adds; or what
-- another handler makes of a record.
pub data Line : Type 0 where
  ecs_line : Fields → Fields → Line
  other_line : ℕ → Fields → Line

abbrev pub printed : Fields → Listener → Line
printed fields l = ecs_line fields l.service_info

-- The lines that one record makes by way of one handler.
unfoldable pub handled : Option RequestLogMetadata → Fields → List Listener → Handler → List Line
handled metadata fields running (other_handler n) = other_line n fields ∷ []
handled metadata fields running (queue_handler queue) =
    map (printed (attach metadata fields)) (filter (reads_queue queue) running)

unfoldable pub handled_by_each :
    Option RequestLogMetadata → Fields → List Listener → List Handler → List Line
handled_by_each metadata fields running [] = []
handled_by_each metadata fields running (h ∷ hs) =
    handled metadata fields running h ++ handled_by_each metadata fields running hs

unfoldable pub passes : List Filter → Fields → Bool
passes [] fields = true
passes (f ∷ filters) fields = let rest = passes filters fields in if f fields then rest else false

-- A record comes from the root logger, or from another one that has no level of its own and whose records
-- reach the root's handlers but not its filters.
pub data Origin : Type 0 where
  root_logger other_logger : Origin

unfoldable pub filtered : Origin → List Filter → Fields → Bool
filtered root_logger filters fields = passes filters fields
filtered other_logger filters fields = true

-- A record of a level, in a request or outside one.
unfoldable pub log : Process → Origin → ℕ → Option RequestLogMetadata → Fields → List Line
log p origin level metadata fields =
    if leb p.level level && filtered origin p.filters fields
    then handled_by_each metadata fields p.running p.handlers
    else []
