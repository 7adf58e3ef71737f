-- ===== src/Lint/Semi.antt =====
-- .ores-lint/eslint/plugin.mjs, `semiRule`: the fallback rule for semicolons. A node is what the rule
-- reads of it: its type, its last token, and where its parent or its declaration matters, those.
use cliptown_lib_core.Prelude.{
  Bool, false, not, ◌&&◌, ◌||◌, List, [], ◌∷◌, Option, none, some, if◌then◌else◌,
}
use cliptown_lib_core.Text.{Text, lit, text_eq, is_one_of}

pub record Token : Type 0 where
  pub type : Text
  pub value : Text

-- The parent's type, and whether the node is its `init` or its `left`.
pub record Parent : Type 0 where
  pub type : Text
  pub is_init : Bool
  pub is_left : Bool

pub record Statement : Type 0 where
  pub type : Text
  pub last_token : Option Token
  pub parent : Option Parent
  pub declaration : Option Text

abbrev pub needs_semi : List Text
needs_semi =
    lit "ExpressionStatement"
    ∷ lit "ReturnStatement"
    ∷ lit "ThrowStatement"
    ∷ lit "BreakStatement"
    ∷ lit "ContinueStatement"
    ∷ lit "DebuggerStatement"
    ∷ lit "DoWhileStatement"
    ∷ lit "ImportDeclaration"
    ∷ lit "ExportAllDeclaration"
    ∷ lit "PropertyDefinition"
    ∷ lit "TSTypeAliasDeclaration"
    ∷ lit "TSDeclareFunction"
    ∷ lit "TSImportEqualsDeclaration"
    ∷ []

abbrev pub block_declarations : List Text
block_declarations =
    lit "FunctionDeclaration"
    ∷ lit "ClassDeclaration"
    ∷ lit "TSInterfaceDeclaration"
    ∷ lit "TSEnumDeclaration"
    ∷ lit "TSModuleDeclaration"
    ∷ []

unfoldable pub is_semicolon : Token → Bool
is_semicolon token = text_eq token.type (lit "Punctuator") && text_eq token.value (lit ";")

-- `check`: whether it reports.
unfoldable pub misses_semi : Statement → Bool
misses_semi node = elim node.last_token [ none ↦ false | some token ↦ not (is_semicolon token) ]

-- The head of a `for` statement.
unfoldable pub is_for_head : Option Parent → Bool
is_for_head none = false
is_for_head (some parent) =
    (text_eq parent.type (lit "ForStatement") && parent.is_init)
    || ((text_eq parent.type (lit "ForInStatement") || text_eq parent.type (lit "ForOfStatement"))
        && parent.is_left)

unfoldable pub is_block_export : Option Text → Bool
is_block_export none = false
is_block_export (some type) = is_one_of type block_declarations

-- The handler of a node's type: whether the rule reports the node.
unfoldable pub semi_reports : Statement → Bool
semi_reports node =
    if text_eq node.type (lit "VariableDeclaration")
    then not (is_for_head node.parent) && misses_semi node
    else if text_eq node.type (lit "ExportNamedDeclaration")
        || text_eq node.type (lit "ExportDefaultDeclaration")
    then not (is_block_export node.declaration) && misses_semi node
    else is_one_of node.type needs_semi && misses_semi node
