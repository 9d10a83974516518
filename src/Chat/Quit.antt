-- ===== src/Chat/Quit.antt =====
-- Quitting.
use nginz.Prelude.{Option, none, some}

abbrev or_else : {A : Type 0} → A → Option A → A
or_else d none = d
or_else d (some x) = x
