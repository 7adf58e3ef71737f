-- ===== src/Lint/RequireSend.antt =====
-- .ores-lint/eslint/plugin.mjs, `requireSendRule`: the visitor as a step on what it knows and has
-- reported.
pub mod Reports
pub mod Delivery
pub mod Exports
use mathlib.Core.List.{flat_map}
use cliptown_lib_core.Prelude.{
  Bool, true, false, not, ◌&&◌, ◌||◌, List, [], ◌∷◌, ◌++◌, map, Option, none, some, any,
  if◌then◌else◌,
}
use cliptown_lib_core.Text.{Text, lit, text_eq, is_blank, is_one_of, starts_with, join}
use cliptown_lib_core.Lint.Chains.{
  Node, Chain, identifier, member, call, new_expression, wrapper, qualified_name, property_name,
  collect_call_chain, has_name,
}
use cliptown_lib_core.Lint.RequireSend.Exports.{
  logger_exports, factory_exports, class_exports, default_level_methods, default_terminal_methods,
}

-- `context.options[0]`, with what is absent.
pub record Options : Type 0 where
  pub logger_names : List Text
  pub module_names : List Text
  pub level_methods : Option (List Text)
  pub terminal_methods : Option (List Text)

-- What `create` computes from the options.
pub record Settings : Type 0 where
  pub module_names : List Text
  pub level_methods : List Text
  pub terminal_methods : List Text

pub record Known : Type 0 where
  pub loggers : List Text
  pub factories : List Text
  pub classes : List Text

unfoldable pub or_default : Option (List Text) → List Text → List Text
or_default none default_values = default_values
or_default (some values) default_values = values

unfoldable pub settings : Options → Settings
settings options = record {
  module_names = lit "@oresoftware/next-loggers" ∷ options.module_names;
  level_methods = or_default options.level_methods default_level_methods;
  terminal_methods = or_default options.terminal_methods default_terminal_methods;
}

unfoldable pub first_known : Options → Known
first_known options = record {
  loggers = lit "log" ∷ lit "logger" ∷ lit "ddlog" ∷ options.logger_names;
  factories = [];
  classes = [];
}

unfoldable pub terminal_label : Settings → Text
terminal_label s = join (lit " or ") (map (λ m. b'.' ∷ m ++ lit "()") s.terminal_methods)

-- `isTrackedModule`; the source is `none` where it is no string.
unfoldable pub is_tracked_module : Option Text → List Text → Bool
is_tracked_module none names = false
is_tracked_module (some source) names =
    any (λ name. text_eq source name || starts_with source (name ++ lit "/")) names

-- `callee` is `owner.anew` for a known owner.
unfoldable pub is_anew : Known → Node → Bool
is_anew known (wrapper node) = is_anew known node
is_anew known (member computed object property) = elim (property_name computed property) [
  | none ↦ false
  | some method ↦ text_eq method (lit "anew") && has_name known.loggers (qualified_name object)
]
is_anew known node = false

-- `isLoggerProducer`, for a node that is present.
unfoldable pub is_logger_producer : Known → Node → Bool
is_logger_producer known (wrapper node) = is_logger_producer known node
is_logger_producer known (new_expression callee) = has_name known.classes (qualified_name callee)
is_logger_producer known (call callee) =
    has_name known.factories (qualified_name callee) || is_anew known callee
is_logger_producer known node = has_name known.loggers (qualified_name node)

-- The specifiers of an import, with their local name; the imported name is `none` where it is no
-- string.
pub data Specifier : Type 0 where
  default_specifier namespace_specifier : Text → Specifier
  named_specifier : Text → Option Text → Specifier

-- The nodes that the visitor is called for, in the order of the traversal.
pub data Visit : Type 0 where
  import_declaration : Option Text → List Specifier → Visit
  variable_declarator : (id : Node) (init : Option Node) → Visit
  assignment_expression : (left right : Node) → Visit
  expression_statement : Node → Visit

pub record State : Type 0 where
  pub known : Known
  pub reports : List Node

unfoldable pub add_logger : Text → Known → Known
add_logger name known = record known { loggers = known.loggers ++ name ∷ [] }

-- `${localName}.${name}` for each name.
unfoldable pub within : Text → List Text → List Text
within owner names = map (λ name. owner ++ b'.' ∷ name) names

unfoldable pub add_if : Bool → Text → List Text → List Text
add_if test name names = if test then names ++ name ∷ [] else names

unfoldable pub import_name : Text → Option Text → Known → Known
import_name name none known = known
import_name name (some imported) known = record {
  loggers = add_if (is_one_of imported logger_exports) name known.loggers;
  factories = add_if (is_one_of imported factory_exports) name known.factories;
  classes = add_if (is_one_of imported class_exports) name known.classes;
}

-- The body of the loop over specifiers.
unfoldable pub import_specifier : Specifier → Known → Known
import_specifier (default_specifier name) known =
    if is_blank name then known else add_logger name known
import_specifier (namespace_specifier name) known = if is_blank name then known else record {
  loggers = known.loggers ++ within name logger_exports;
  factories = known.factories ++ within name factory_exports;
  classes = known.classes ++ within name class_exports;
}
import_specifier (named_specifier name imported) known =
    if is_blank name then known else import_name name imported known

unfoldable pub import_specifiers : List Specifier → Known → Known
import_specifiers [] known = known
import_specifiers (s ∷ ss) known = import_specifiers ss (import_specifier s known)

unfoldable pub declare : Node → Option Node → Known → Known
declare (identifier name) (some init) known =
    if is_blank name
    then known
    else if is_logger_producer known init
    then add_logger name known
    else known
declare id init known = known

unfoldable pub assign : Option Text → Node → Known → Known
assign none right known = known
assign (some name) right known =
    if is_blank name
    then known
    else if is_logger_producer known right
    then add_logger name known
    else known

-- `methods.slice(levelIndex + 1)`, where there is a level method.
unfoldable pub after_level : Settings → List Text → Option (List Text)
after_level s [] = none
after_level s (m ∷ ms) =
    let rest = after_level s ms in if is_one_of m s.level_methods then some ms else rest

-- Whether the methods reach a level and no terminal method behind it.
unfoldable pub is_undelivered : Settings → List Text → Bool
is_undelivered s methods = elim (after_level s methods) [
  | none ↦ false
  | some tail ↦ not (any (λ m. is_one_of m s.terminal_methods) tail)
]

unfoldable pub is_reported : Settings → Known → Chain → Bool
is_reported s known chain = has_name known.loggers chain.root && is_undelivered s chain.methods

-- The visitor.
unfoldable pub visit : Settings → State → Visit → State
visit s state (import_declaration source specifiers) =
    if is_tracked_module source s.module_names
    then record state { known = import_specifiers specifiers state.known }
    else state
visit s state (variable_declarator id init) = record state { known = declare id init state.known }
visit s state (assignment_expression left right) = record state {
  known = assign (qualified_name left) right state.known;
}
visit s state (expression_statement expression) =
    if is_reported s state.known (collect_call_chain expression)
    then record state { reports = state.reports ++ expression ∷ [] }
    else state

unfoldable pub visit_all : Settings → State → List Visit → State
visit_all s state [] = state
visit_all s state (v ∷ vs) = visit_all s (visit s state v) vs

-- A run of the rule over a file.
unfoldable pub require_send : Options → List Visit → State
require_send options visits =
    visit_all (settings options) (record { known = first_known options; reports = [] }) visits
