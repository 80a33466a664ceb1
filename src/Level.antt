-- ===== src/Level.antt =====
-- The severities of include/papper/detail/level.h and the tests on them that the backend makes.
use papper.Common.{ℕ}
use papper.Text.{Text, codes}

pub data LogLevel : Type 0 where
  trace debug info warn error : LogLevel

-- The value of an enumerator, by which `<` compares.
unfoldable pub severity : LogLevel → ℕ
severity trace = 0
severity debug = 1
severity info = 2
severity warn = 3
severity error = 4

-- `level_to_name` of include/papper/detail/pattern.h; the enumerators are all, so "UNKNOWN" is not
-- reached.
unfoldable pub level_to_name : LogLevel → Text
level_to_name trace = codes "TRACE"
level_to_name debug = codes "DEBUG"
level_to_name info = codes "INFO"
level_to_name warn = codes "WARN"
level_to_name error = codes "ERROR"
