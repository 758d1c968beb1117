-- ===== src/Swap/OrderSide.antt =====
-- `OrderSide` of electrumx/server/swap_index.py.
use rxin_dexer.Prelude.{ℕ}

abbrev pub buy : ℕ
buy = 0

abbrev pub sell : ℕ
sell = 1
