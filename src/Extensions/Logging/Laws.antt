-- ===== src/Extensions/Logging/Laws.antt =====
-- However often it is called, each record makes one line.
use djaskt_trading_app.Prelude.{ℕ, ◌≡◌, Option, none, some, List, [], ◌∷◌}
use djaskt_trading_app.Extensions.Logging.{Options, Listener, Handler, Process}

-- The listener of the module is the only one that runs.
unfoldable pub IsAlone : Option Listener → List Listener → Type 0
IsAlone none running = running ≡ []
IsAlone (some l) running = running ≡ l ∷ []

-- What one call leaves.
pub record IsConfigured (o : Options) (p : Process) : Type 0 where
  pub queue : ℕ
  pub level : p.level ≡ o.level
  pub handlers : p.handlers ≡ Handler.queue_handler queue ∷ []
  pub filters : p.filters ≡ []
  pub listener : p.listener ≡ some (record { queue = queue; service_info = o.service_info })
  pub running : p.running ≡ (record { queue = queue; service_info = o.service_info }) ∷ []
  pub at_exit :
      (ls : List Listener) × (p.at_exit
        ≡ (record { queue = queue; service_info = o.service_info }) ∷ ls)

abbrev pub last : Options → List Options → Options
last o [] = o
last o (n ∷ options) = last n options
