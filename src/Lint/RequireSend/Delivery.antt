-- ===== src/Lint/RequireSend/Delivery.antt =====
-- .ores-lint/eslint/plugin.mjs, `requireSendRule`: what the visitor knows and has reported stays, and
-- an undelivered chain on a known logger is reported.
use cliptown_lib_core.Prelude.{
  ◌≡◌, refl, sym, inl, inr, Bool, true, false, List, [], ◌∷◌, ◌++◌, Option, none, some, In, All,
  if◌then◌else◌, arith,
}
use cliptown_lib_core.Text.{Text, is_one_of, is_blank}
use cliptown_lib_core.Text.Equality.{IsIn, text_eq_refl}
use cliptown_lib_core.Topology.Known.{IsIn-append_left}
use cliptown_lib_core.Lint.Chains.{Node, identifier, collect_call_chain, has_name, qualified_name}
use cliptown_lib_core.Lint.RequireSend.{
  Settings, Known, State, Visit, Specifier, default_specifier, namespace_specifier, named_specifier,
  import_declaration, variable_declarator, assignment_expression, expression_statement, add_logger,
  add_if, within, import_name, import_specifier, import_specifiers, declare, assign, is_reported,
  is_logger_producer, visit, visit_all, is_tracked_module,
}
use cliptown_lib_core.Lint.RequireSend.Exports.{logger_exports}
use cliptown_lib_core.Lint.RequireSend.Reports.{
  IsUndelivered, is_undelivered-IsUndelivered, call_all, collect_call_chain-call_all,
}

abbrev Knows : Text → Known → Type 0
Knows name known = IsIn name known.loggers

is_one_of-IsIn : (s : Text) (ts : List Text) → IsIn s ts → is_one_of s ts ≡ true
unfolding is_one_of
is_one_of-IsIn s [] m = absurd m
is_one_of-IsIn s (t ∷ ts) (inl e) = let hit = text_eq_refl s in rw (sym e) (rw hit refl)
is_one_of-IsIn s (t ∷ ts) (inr m) = let later = is_one_of-IsIn s ts m in ground arith

add_if-Included :
    (b : Bool) (name n : Text) (names : List Text) → IsIn n names → IsIn n (add_if b name names)
unfolding add_if
add_if-Included true name n names h = IsIn-append_left n names (name ∷ []) h
add_if-Included false name n names h = h

import_name-Knows :
    (n name : Text) (imported : Option Text) (known : Known)
    → Knows n known
    → Knows n (import_name name imported known)
unfolding import_name
import_name-Knows n name none known h = h
import_name-Knows n name (some imported) known h =
    add_if-Included (is_one_of imported logger_exports) name n known.loggers h

if-Knows :
    (n : Text) (b : Bool) (k l : Known) → Knows n k → Knows n l → Knows n (if b then k else l)
if-Knows n true k l h i = h
if-Knows n false k l h i = i

import_specifier-Knows :
    (n : Text) (s : Specifier) (known : Known) → Knows n known → Knows n (import_specifier s known)
unfolding import_specifier add_logger
import_specifier-Knows n (default_specifier name) known h =
    if-Knows n (is_blank name) _ _ h (IsIn-append_left n known.loggers (name ∷ []) h)
import_specifier-Knows n (namespace_specifier name) known h =
    if-Knows n (is_blank name) _ _ h
      (IsIn-append_left n known.loggers (within name logger_exports) h)
import_specifier-Knows n (named_specifier name imported) known h =
    if-Knows n (is_blank name) _ _ h (import_name-Knows n name imported known h)

import_specifiers-Knows :
    (n : Text) (ss : List Specifier) (known : Known)
    → Knows n known
    → Knows n (import_specifiers ss known)
unfolding import_specifiers
import_specifiers-Knows n [] known h = h
import_specifiers-Knows n (s ∷ ss) known h =
    import_specifiers-Knows n ss (import_specifier s known) (import_specifier-Knows n s known h)

learn-Knows :
    (n name : Text) (right : Node) (known : Known)
    → Knows n known
    → Knows n (
        if is_blank name
        then known
        else if is_logger_producer known right
        then add_logger name known
        else known)
unfolding add_logger
learn-Knows n name right known h = if-Knows n (is_blank name) _ _ h (
    if-Knows n (is_logger_producer known right) _ _ (IsIn-append_left n known.loggers (name ∷ []) h)
      h)

declare-Knows :
    (n : Text) (id : Node) (init : Option Node) (known : Known)
    → Knows n known
    → Knows n (declare id init known)
unfolding declare
declare-Knows n (identifier name) (some right) known h = learn-Knows n name right known h
declare-Knows n (identifier name) none known h = h
declare-Knows n _ init known h = h

assign-Knows :
    (n : Text) (name : Option Text) (right : Node) (known : Known)
    → Knows n known
    → Knows n (assign name right known)
unfolding assign
assign-Knows n none right known h = h
assign-Knows n (some name) right known h = learn-Knows n name right known h

-- What holds of a state and of what a visit adds to it.
record Extends (s t : State) : Type 0 where
  knows : (n : Text) → Knows n s.known → Knows n t.known
  reports : (node : Node) → In node s.reports → In node t.reports

In-append_left : {A : Type 0} (x : A) (xs ys : List A) → In x xs → In x (xs ++ ys)
In-append_left x [] ys m = absurd m
In-append_left x (_ ∷ xs) ys (inl e) = inl e
In-append_left x (_ ∷ xs) ys (inr m) = inr (In-append_left x xs ys m)

In-append_last : {A : Type 0} (x : A) (xs : List A) → In x (xs ++ x ∷ [])
In-append_last x [] = inl refl
In-append_last x (y ∷ xs) = inr (In-append_last x xs)

if-Extends : (b : Bool) (s t u : State) → Extends s t → Extends s u → Extends s (if b then t else u)
if-Extends true s t u h i = h
if-Extends false s t u h i = i

same-Extends : (s : State) → Extends s s
same-Extends s = record { knows = λ n h. h; reports = λ node h. h }

visit-Extends : (s : Settings) (state : State) (v : Visit) → Extends state (visit s state v)
unfolding visit
visit-Extends s state (import_declaration source specifiers) =
    if-Extends (is_tracked_module source s.module_names) state _ _
      (record {
        knows = λ n h. import_specifiers-Knows n specifiers state.known h;
        reports = λ node h. h;
      })
      (same-Extends state)
visit-Extends s state (variable_declarator id init) = record {
  knows = λ n h. declare-Knows n id init state.known h;
  reports = λ node h. h;
}
visit-Extends s state (assignment_expression left right) = record {
  knows = λ n h. assign-Knows n (qualified_name left) right state.known h;
  reports = λ node h. h;
}
visit-Extends s state (expression_statement expression) =
    if-Extends (is_reported s state.known (collect_call_chain expression)) state _ _
      (record {
        knows = λ n h. h;
        reports = λ node h. In-append_left node state.reports (expression ∷ []) h;
      })
      (same-Extends state)

-- A name that the visitor knows as a logger, and a statement that it has reported, stay so whatever
-- it visits.
pub visit_all-Extends :
    (s : Settings) (state : State) (vs : List Visit)
    → ((n : Text) → IsIn n state.known.loggers → IsIn n (visit_all s state vs).known.loggers)
      × ((node : Node) → In node state.reports → In node (visit_all s state vs).reports)
unfolding visit_all
visit_all-Extends s state [] = (λ n h. h, λ node h. h)
visit_all-Extends s state (v ∷ vs) =
    let first = visit-Extends s state v in
    let rest = visit_all-Extends s (visit s state v) vs in
    (λ n h. rest.0 n (first.knows n h), λ node h. rest.1 node (first.reports node h))

visit_all-append :
    (s : Settings) (state : State) (vs ws : List Visit)
    → visit_all s state (vs ++ ws) ≡ visit_all s (visit_all s state vs) ws
unfolding visit_all
visit_all-append s state [] ws = refl
visit_all-append s state (v ∷ vs) ws = visit_all-append s (visit s state v) vs ws

visit-reports :
    (s : Settings) (state : State) (root : Text) (methods : List Text)
    → is_blank root ≡ false
    → IsIn root state.known.loggers
    → All (λ m. is_blank m ≡ false) methods
    → IsUndelivered s methods
    → visit s state (expression_statement (call_all (identifier root) methods))
      ≡ record state { reports = state.reports ++ call_all (identifier root) methods ∷ [] }
unfolding visit is_reported has_name
visit-reports s state root methods named known nonblank dropped =
    rw
      (
        collect_call_chain-call_all root methods nonblank,
        named,
        is_one_of-IsIn root state.known.loggers known,
        (is_undelivered-IsUndelivered s methods).1 dropped,
      )
      refl

-- Once the visitor knows a logger by its name, a later statement that chains calls on the name,
-- reaches a level method and has no terminal method behind it, is reported in the end, whatever is
-- visited before and after the statement.
pub visit_all-reports :
    (s : Settings) (state : State) (root : Text) (methods : List Text) (before after : List Visit)
    → is_blank root ≡ false
    → IsIn root state.known.loggers
    → All (λ m. is_blank m ≡ false) methods
    → IsUndelivered s methods
    → In
        (call_all (identifier root) methods)
        (visit_all s state
          (before ++ expression_statement (call_all (identifier root) methods) ∷ after)).reports
unfolding visit_all
visit_all-reports s state root methods before after named known nonblank dropped =
    rw (visit_all-append s state before (expression_statement chain ∷ after))
      ((visit_all-Extends s (visit s middle (expression_statement chain)) after).1 chain there)
  where
    chain : Node
    chain = call_all (identifier root) methods

    middle : State
    middle = visit_all s state before

    there : In chain (visit s middle (expression_statement chain)).reports
    there =
        rw
          (visit-reports s middle root methods named
            ((visit_all-Extends s state before).0 root known) nonblank dropped)
          (In-append_last chain middle.reports)
