-- ===== src/Swap/OrderStatus.antt =====
-- `OrderStatus` of electrumx/server/swap_index.py.
use rxin_dexer.Prelude.{ℕ}

abbrev pub open_order : ℕ
open_order = 0

abbrev pub partial : ℕ
partial = 1

abbrev pub filled : ℕ
filled = 2

abbrev pub cancelled : ℕ
cancelled = 3

abbrev pub expired : ℕ
expired = 4
