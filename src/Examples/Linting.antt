-- ===== src/Examples/Linting.antt =====
-- The theorems on the lint rules and on lock names at concrete inputs.
use cliptown_lib_core.Prelude.{
  ◌≡◌, refl, ◌↔◌, inl, true, false, List, [], ◌∷◌, ◌++◌, none, some, In, All, ok,
}
use cliptown_lib_core.Text.{Text, lit, concat, is_blank, is_one_of}
use cliptown_lib_core.Text.Equality.{IsIn}
use cliptown_lib_core.Lint.Chains.{Node, identifier, collect_call_chain}
use cliptown_lib_core.Lint.RequireSend.{
  Options, State, Visit, settings, first_known, default_specifier, import_declaration,
  expression_statement, is_undelivered, after_level, or_default, visit_all,
}
use cliptown_lib_core.Lint.RequireSend.Reports.{
  IsUndelivered, is_undelivered-IsUndelivered, call_all, collect_call_chain-call_all,
}
use cliptown_lib_core.Lint.RequireSend.Delivery.{visit_all-Extends, visit_all-reports}
use cliptown_lib_core.Locks.{
  LockEntry, both_layers, key, fill_parts, split_placeholders, closes, nth_text, entry_key,
  built_entry_key,
}
use cliptown_lib_core.Locks.Fill.{entry_key-built_entry_key}

abbrev options : Options
options = record {
  logger_names = [];
  module_names = [];
  level_methods = none;
  terminal_methods = none;
}

abbrev state : State
state = record { known = first_known options; reports = [] }

abbrev methods : List Text
methods = lit "with" ∷ lit "info" ∷ []

is_undelivered-IsUndelivered_example :
    (is_undelivered (settings options) methods ≡ true) ↔ IsUndelivered (settings options) methods
is_undelivered-IsUndelivered_example = is_undelivered-IsUndelivered (settings options) methods

methods-undelivered : is_undelivered (settings options) methods ≡ true
unfolding is_undelivered settings after_level is_one_of or_default lit
methods-undelivered = refl

methods-IsUndelivered : IsUndelivered (settings options) methods
methods-IsUndelivered =
    (is_undelivered-IsUndelivered (settings options) methods).0 methods-undelivered

methods-named : All (λ m. is_blank m ≡ false) methods
unfolding is_blank lit
methods-named = (refl, (refl, tt))

collect_call_chain-call_all_example :
    collect_call_chain (call_all (identifier (lit "log")) methods)
    ≡ record { root = some (lit "log"); methods = methods }
collect_call_chain-call_all_example = collect_call_chain-call_all (lit "log") methods methods-named

visits : List Visit
visits =
    import_declaration (some (lit "@oresoftware/next-loggers"))
      (default_specifier (lit "audit") ∷ [])
    ∷ []

visit_all-Extends_example :
    ((n : Text)
      → IsIn n state.known.loggers
      → IsIn n (visit_all (settings options) state visits).known.loggers)
    × ((node : Node)
        → In node state.reports
        → In node (visit_all (settings options) state visits).reports)
visit_all-Extends_example = visit_all-Extends (settings options) state visits

log-known : IsIn (lit "log") state.known.loggers
unfolding first_known
log-known = inl refl

log-named : is_blank (lit "log") ≡ false
unfolding is_blank lit
log-named = refl

visit_all-reports_example :
    In
      (call_all (identifier (lit "log")) methods)
      (visit_all
        (settings options)
        state
        (visits ++ expression_statement (call_all (identifier (lit "log")) methods) ∷ [])).reports
visit_all-reports_example =
    visit_all-reports (settings options) state (lit "log") methods visits [] log-named log-known
      methods-named methods-IsUndelivered

tenant_entry : LockEntry
tenant_entry = record {
  domain = lit "tenant";
  name = lit "{tenant_id}/mutate";
  layers = both_layers;
  pg_scope = lit "transaction";
  wait = true;
}

entry_key-built_entry_key_example :
    entry_key (λ s. ok s) tenant_entry (lit "t1" ∷ [])
    ≡ built_entry_key (λ s. ok s) tenant_entry (lit "t1" ∷ [])
entry_key-built_entry_key_example =
    entry_key-built_entry_key (λ s. ok s) tenant_entry (lit "t1" ∷ [])

-- What the key is.
tenant_key :
    entry_key (λ s. ok s) tenant_entry (lit "t1" ∷ []) ≡ ok (lit "cliptown/tenant/t1/mutate")
unfolding entry_key tenant_entry key lit concat fill_parts split_placeholders closes nth_text
tenant_key = refl
