-- ===== src/Logging/Laws.antt =====
-- The logger that a context carries.
use namespace_lister.Base.{Option, none, some, List, [], ◌∷◌, ◌≡◌, refl, string_eq}
use namespace_lister.Logging.{
  Logger, Value, Context, key_text, context_key_user_details, discard_all, with_value, value,
  set_logger_into_context, get_logger_from_context,
}

module _ {Other : Type 0} where
  -- The context with the details of users put into it one after the other.
  abbrev pub with_details : List (Value Other) → Context Other → Context Other
  with_details [] ctx = ctx
  with_details (v ∷ vs) ctx = with_value context_key_user_details v (with_details vs ctx)

  -- A context, whatever is set for the user's details after a logger, gives back the logger that was
  -- set last, and the logger that discards all where that one is nil.
  pub get_logger_from_context-set_logger_into_context :
      (ctx : Context Other) (l : Option Logger) (details : List (Value Other))
      → get_logger_from_context (with_details details (set_logger_into_context ctx l))
        ≡ (elim l [ none ↦ discard_all | some given ↦ given ])
  unfolding get_logger_from_context set_logger_into_context with_value value key_text string_eq
  get_logger_from_context-set_logger_into_context ctx none [] = refl
  get_logger_from_context-set_logger_into_context ctx (some l) [] = refl
  get_logger_from_context-set_logger_into_context ctx l (v ∷ vs) =
      get_logger_from_context-set_logger_into_context ctx l vs
