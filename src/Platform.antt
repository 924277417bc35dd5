-- ===== src/Platform.antt =====
-- What the agent takes from the C library and does not implement: floating point and regular
-- expressions. Nothing is assumed of them here; a theorem names what it needs.
use pandora_agent_win.Base.Int.{ℤ}
use pandora_agent_win.Base.{Bool, Option}
use pandora_agent_win.Strutils.{Scan}
use pandora_agent_win.Text.{Str}

pub record Platform : Type 1 where
  -- `double`, the conversion from `int`, and the comparisons `<`, `==`
  pub Double : Type 0
  pub of_int : ℤ → Double
  pub lt : Double → Double → Bool
  pub eq : Double → Double → Bool
  -- `sscanf (s, "%le", …)`
  pub scan_le : Str → Scan Double
  -- the conversion `%lf` inside a longer format: the value, and what follows it
  pub scan_lf : Str → Option (Double × Str)
  -- `regcomp` and `regexec`
  pub Regex : Type 0
  pub regcomp : Str → Option Regex
  pub regexec : Regex → Str → Bool
