-- ===== src/Logging.antt =====
-- internal/log/log.go and internal/contextkey: the logger, and how a context carries it.
pub mod Laws
use namespace_lister.Base.{
  String, Bool, Option, none, some, List, [], ◌∷◌, if◌then◌else◌, ◌==◌, string_eq,
}
use namespace_lister.Base.Int.{ℤ, pos}
use namespace_lister.Env.{Getenv, get_log_level}

-- `contextkey.ContextKey` and its constants
pub data ContextKey : Type 0 where
  context_key_logger context_key_user_details : ContextKey

unfoldable pub key_text : ContextKey → String
key_text context_key_logger = "logger"
key_text context_key_user_details = "user-details"

-- `slog.Logger`, by its handler: what it writes as, where to, and from which level on.
pub data Logger : Type 0 where
  json_to_stdout : (level : ℤ) → Logger
  text_discarded : Logger

-- A value in a context: a pointer to a logger, which may be nil, or something of another type.
pub data Value (Other : Type 0) : Type 0 where
  a_logger : Option Logger → Value Other
  another : Other → Value Other

-- `BuildLogger`
unfoldable pub build_logger : (atoi : String → Option ℤ) → Getenv → Logger
unfolding get_log_level
build_logger atoi getenv = json_to_stdout (get_log_level atoi getenv)

-- the logger that `GetLoggerFromContext` makes
abbrev pub discard_all : Logger
discard_all = text_discarded

-- The type assertion to `*slog.Logger`, with the test for nil.
abbrev pub logger_or : {Other : Type 0} → Logger → Option (Value Other) → Logger
logger_or default (some (a_logger (some l))) = l
logger_or default _ = default

-- `context.Context`: the values, the latest first
abbrev pub Context : Type 0 → Type 0
Context Other = List (String × Value Other)

module _ {Other : Type 0} where
  -- `context.WithValue` and `Value`
  unfoldable pub with_value : ContextKey → Value Other → Context Other → Context Other
  unfolding key_text
  with_value key v ctx = (key_text key, v) ∷ ctx

  unfoldable pub value : ContextKey → Context Other → Option (Value Other)
  unfolding key_text
  value key [] = none
  value key ((k, v) ∷ ctx) = let rest = value key ctx in if k == key_text key then some v else rest

  -- `SetLoggerIntoContext`
  unfoldable pub set_logger_into_context : Context Other → Option Logger → Context Other
  unfolding with_value
  set_logger_into_context ctx logger = with_value context_key_logger (a_logger logger) ctx

  -- `GetLoggerFromContext`
  unfoldable pub get_logger_from_context : Context Other → Logger
  unfolding value
  get_logger_from_context ctx = logger_or discard_all (value context_key_logger ctx)
