-- ===== src/Lint/Chains.antt =====
-- .ores-lint/eslint/plugin.mjs: the functions that read names and call chains off a syntax tree.
use cliptown_lib_core.Prelude.{
  Bool, true, false, List, [], ◌∷◌, ◌++◌, Option, none, some, if◌then◌else◌,
}
use cliptown_lib_core.Text.{Text, lit, is_blank, is_one_of}

-- The nodes that the rule tells apart. `member` and `call` stand for the optional forms too, and
-- `wrapper` for the nodes that `unwrap` strips: `?.` chains, `await`, `void`, and the casts of
-- TypeScript. The arguments of a call are not read.
pub data Node : Type 0 where
  identifier : Text → Node
  this_expression : Node
  string_literal : Text → Node
  member : (computed : Bool) (object property : Node) → Node
  call new_expression : Node → Node
  wrapper : Node → Node
  other : Node

-- `unwrap`.
unfoldable pub unwrap : Node → Node
unwrap (wrapper node) = unwrap node
unwrap node = node

-- `getPropertyName` of a member expression with this property.
unfoldable pub property_name : Bool → Node → Option Text
property_name false (identifier name) = some name
property_name true (string_literal value) = some value
property_name computed property = none

-- `objectName && propertyName ? … : undefined`: an empty name counts as absent.
unfoldable pub qualify : Option Text → Option Text → Option Text
qualify (some owner) (some name) =
    if is_blank owner then none else if is_blank name then none else some (owner ++ b'.' ∷ name)
qualify owner name = none

-- `getQualifiedName`, which strips wrappers at every level.
unfoldable pub qualified_name : Node → Option Text
qualified_name (wrapper node) = qualified_name node
qualified_name (identifier name) = some name
qualified_name this_expression = some (lit "this")
qualified_name (member computed object property) =
    qualify (qualified_name object) (property_name computed property)
qualified_name node = none

-- `if (method) methods.push(method)`.
unfoldable pub push_method : Option Text → List Text → List Text
push_method none methods = methods
push_method (some method) methods = if is_blank method then methods else methods ++ method ∷ []

-- The root of a call chain and its methods, from left to right.
pub record Chain : Type 0 where
  pub root : Option Text
  pub methods : List Text

-- `collectCallChain`; the second function is the part on a callee.
unfoldable mutual
  pub collect_call_chain : Node → Chain
  collect_call_chain (wrapper node) = collect_call_chain node
  collect_call_chain (call callee) = collect_callee callee
  collect_call_chain node = record { root = qualified_name node; methods = [] }

  pub collect_callee : Node → Chain
  collect_callee (wrapper node) = collect_callee node
  collect_callee (member computed object property) =
      let inner = collect_call_chain object in
      record {
        root = inner.root;
        methods = push_method (property_name computed property) inner.methods;
      }
  collect_callee node = record { root = qualified_name node; methods = [] }

-- `name && set.has(name)`.
unfoldable pub has_name : List Text → Option Text → Bool
has_name names none = false
has_name names (some name) = if is_blank name then false else is_one_of name names
