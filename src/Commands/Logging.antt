-- ===== src/Commands/Logging.antt =====
-- `initLogger` of cmd/root.go and `NewLogger` of pkg/logger/logger.go. logrus is a parameter.
use mysnapshotter.Prelude.{
  Bool, true, false, if◌then◌else◌, Option, none, some, Text, codes, ◌==◌, [], ◌≡◌, refl, Error,
  Result, ok, err,
}

-- `logrus.ParseLevel`, and the level of a new logger.
pub record Logrus : Type 1 where
  pub Level : Type 0
  pub parse_level : Text → Result Level
  pub new_level : Level

-- `DebugLevel` and `InfoLevel`.
abbrev pub debug_level : Text
debug_level = codes "debug"

abbrev pub info_level : Text
info_level = codes "info"

module _ (R : Logrus) where
  open R use {Level}

  -- `NewLogger`: the level of the logger, and the error beside it.
  abbrev pub with_level : Result Level → Level × Option Error
  with_level (ok l) = (l, none)
  with_level (err e) = (R.new_level, some e)

  unfoldable pub new_logger : Text → Level × Option Error
  new_logger level = with_level (R.parse_level level)

  abbrev pub or_debug : Level × Option Error → Level
  unfolding new_logger
  or_debug (l, none) = l
  or_debug (l, some _) = (new_logger debug_level).0

  -- `initLogger`: the level of the logger, and whether it warns that the level could not be parsed.
  unfoldable pub init_logger : Bool → Text → Level × Bool
  unfolding new_logger
  init_logger debug level =
      if debug
      then ((new_logger debug_level).0, false)
      else if level == []
      then ((new_logger info_level).0, false)
      else (or_debug (new_logger level), true)

  -- A level that is parsed is the logger's, and it is warned of all the same.
  init_logger-parsed :
      (level : Text) (l : Level)
      → (level == []) ≡ false
      → R.parse_level level ≡ ok l
      → init_logger false level ≡ (l, true)
  unfolding init_logger new_logger
  init_logger-parsed level l h p = rw h (rw p refl)
