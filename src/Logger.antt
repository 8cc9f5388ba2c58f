-- ===== src/Logger.antt =====
-- lib/logger/logger.go: the setup of a logger of logrus, next to the standard logger of that package.
-- `value` is that of LOG in the environment, empty if it is not set.
use cs425_mps.Base.{Bool, true, false, if◌then◌else◌}
use cs425_mps.Base.Text.{Str, codes, str_eq}

pub data Level : Type 0 where
  info trace : Level

pub data Formatter : Type 0 where
  json_formatter : (disable_timestamp : Bool) → (pretty_print : Bool) → Formatter
  text_formatter :
      (pad_level_text : Bool)
      → (force_colors : Bool) → (environment_override_colors : Bool) → (disable_timestamp : Bool)
      → Formatter

pub record Logger : Type 0 where
  pub level : Level
  pub report_caller : Bool
  pub formatter : Formatter
  pub to_stderr : Bool

-- What a logger of logrus is when it is new.
abbrev pub plain_logger : Logger
plain_logger = record {
  level = info;
  report_caller = false;
  formatter = text_formatter false false false false;
  to_stderr = true;
}

-- The logger that is set up, and the standard one after that. The formatter for JSON goes to the
-- standard logger.
unfoldable pub setup_logger : Str → Logger → Logger → Logger × Logger
setup_logger value logger standard =
    let traced = record logger { level = trace; report_caller = str_eq value (codes "trace") } in
    if str_eq value (codes "json")
    then (
      record traced { to_stderr = true },
      record standard { formatter = json_formatter false false },
    )
    else (
      record traced { formatter = text_formatter true false true true; to_stderr = true },
      standard,
    )

-- The programs set up the standard logger, which is then both.
unfoldable pub setup_standard : Str → Logger → Logger
setup_standard value standard =
    let (own, other) = setup_logger value standard standard in
    if str_eq value (codes "json") then record own { formatter = other.formatter } else own
