-- ===== src/Logger.antt =====
-- global/logger.go: the format of a log line, and how the logger is set up.
use windns_logtail.Base.{Text, lit, text_eq, to_lower, ℕ, Bool, true, ◌++◌, if◌then◌else◌}

pub data Level : Type 0 where
  panic fatal error warn info debug : Level

-- How logrus prints a level.
unfoldable pub level_text : Level → Text
level_text panic = lit "panic"
level_text fatal = lit "fatal"
level_text error = lit "error"
level_text warn = lit "warning"
level_text info = lit "info"
level_text debug = lit "debug"

-- `Format`, at a time that is printed.
unfoldable pub format : Text → Level → Text → Text
unfolding level_text
format timestamp level message =
    timestamp ++ (lit " " ++ (level_text level ++ (lit " " ++ (message ++ lit "\n"))))

-- Where the lines go: the standard output, or a file of lumberjack with its sizes.
pub data Output : Type 0 where
  stdout : Output
  rotated : Text → ℕ → ℕ → Bool → Output

-- What of logrus is set.
pub record Logger : Type 0 where
  pub report_caller : Bool
  pub json : Bool
  pub output : Output
  pub level : Level

-- `InitLogger` returns, or it ends the process.
pub data Init : Type 0 where
  ready : Logger → Init
  exits : Init

-- The `switch` on the lower-case name of the level.
unfoldable pub set_level : Text → Logger → Init
unfolding text_eq
set_level name l =
    if text_eq name (lit "debug")
    then ready (record l { level = debug })
    else if text_eq name (lit "info")
    then ready (record l { level = info })
    else if text_eq name (lit "warn")
    then ready (record l { level = warn })
    else if text_eq name (lit "error")
    then ready (record l { level = error })
    else if text_eq name (lit "fatal")
    then ready (record l { level = fatal })
    else if text_eq name (lit "panic")
    then ready (record l { level = panic })
    else exits

-- `clean` is `path.Join` of one name.
unfoldable pub init_logger : (Text → Text) → Text → Text → Bool → Bool → Logger → Init
unfolding set_level to_lower
init_logger clean filepath level to_stdout is_json l = set_level (to_lower level) (record l {
  report_caller = true;
  json = is_json;
  output = if to_stdout then stdout else rotated (clean filepath) 50 2 true;
})
