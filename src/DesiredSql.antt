-- ===== src/DesiredSql.antt =====
-- scripts/verify-desired-sql-v3.mjs: the lint of the desired SQL. Reading a directory or a file is a
-- parameter; a file is its path with its text.
pub mod Patterns
pub mod Report
pub mod Semicolons
pub mod Guards
pub mod Calls
use mathlib.Core.List.{flat_map}
use cliptown_lib_core.Prelude.{
  ℕ, zero, suc, ◌+◌, ◌-◌, Bool, true, false, not, ◌&&◌, ◌||◌, List, [], ◌∷◌, ◌++◌, map, Option,
  none, some, ◌==◌, if◌then◌else◌, length, any, ltb, is_some,
}
use cliptown_lib_core.Text.{Text, lit, is_space, is_word, lower_char}
use cliptown_lib_core.Text.Cut.{after_word, cut}
use cliptown_lib_core.DesiredSql.Patterns.{
  ◌>>=◌, any_case, skip_spaces, spaces, unit, run_of, dollar_tag, Header, function_header,
}

-- `SEARCH_PATH_SENSITIVE`.
abbrev pub search_path_sensitive : List Text
search_path_sensitive =
    lit "vector_dims"
    ∷ lit "vector_norm"
    ∷ lit "l2_normalize"
    ∷ lit "binary_quantize"
    ∷ lit "subvector"
    ∷ lit "cosine_distance"
    ∷ lit "inner_product"
    ∷ lit "l2_distance"
    ∷ lit "l1_distance"
    ∷ lit "array_fill"
    ∷ lit "cardinality"
    ∷ []

-- The line of the next unit.
unfoldable pub next_line : ℕ → ℕ → ℕ
next_line line c = if c == 10 then suc line else line

-- `/\bSET\s+search_path\s*=/i.test(preamble)`; the flag tells of a word unit before.
unfoldable pub sets_here : Text → Option Text
sets_here s = do
  a ← any_case (lit "set") s
  b ← spaces a
  c ← any_case (lit "search_path") b
  unit b'=' (skip_spaces c)

unfoldable pub sets_search_path : Bool → Text → Bool
sets_search_path word [] = false
sets_search_path word (c ∷ s) =
    (not word && is_some (sets_here (c ∷ s))) || sets_search_path (is_word c) s

-- What `sqlFunctionBodies` yields, without the language, which nothing reads.
pub record SqlFunction : Type 0 where
  pub name : Text
  pub body : Text
  pub has_set_search_path : Bool
  pub line : ℕ

-- The function of a match, where its body has an end.
unfoldable pub with_function :
    ℕ → Header → Option (Text × Text) → List SqlFunction → List SqlFunction
with_function line header none functions = functions
with_function line header (some (body, rest)) functions =
    record {
      name = header.name;
      body = body;
      has_set_search_path = sets_search_path false header.preamble;
      line = line;
    }
    ∷ functions

unfoldable pub function_at : ℕ → Option Header → List SqlFunction → List SqlFunction
function_at line none functions = functions
function_at line (some header) functions =
    with_function line header (cut header.tag header.rest) functions

-- How many units behind the first one a match takes: `exec` goes on behind the match.
unfoldable pub taken : Text → Option Text → ℕ
taken s none = 0
taken s (some rest) = length s - length rest - 1

-- `sqlFunctionBodies`, from a line on; the first number is of units inside a match.
unfoldable pub sql_function_bodies : (skip line : ℕ) → Text → List SqlFunction
sql_function_bodies skip line [] = []
sql_function_bodies (suc skip) line (c ∷ s) = sql_function_bodies skip (next_line line c) s
sql_function_bodies zero line (c ∷ s) =
    let found = function_header (c ∷ s) in
    function_at line found
      (sql_function_bodies (taken (c ∷ s) (found >>= λ h. some h.rest)) (next_line line c) s)

-- Whether the text goes on with `callee\s*\(`.
unfoldable pub calls_here : Text → Text → Bool
calls_here callee s = is_some (do rest ← after_word callee s; unit b'(' (skip_spaces rest))

-- `isQualified`, carried along: whether the last unit before that is no space is a point.
unfoldable pub qualifies : Bool → ℕ → Bool
qualifies dotted c = if is_space c then dotted else c == b'.'

-- The lines of the calls of a name that are not qualified. The flags tell whether the call would be
-- qualified and whether a word unit stands before, which `\b` excludes.
unfoldable pub unqualified_calls : (callee : Text) (dotted word : Bool) (line : ℕ) → Text → List ℕ
unqualified_calls callee dotted word line [] = []
unqualified_calls callee dotted word line (c ∷ s) =
    let rest = unqualified_calls callee (qualifies dotted c) (is_word c) (next_line line c) s in
    if not word && calls_here callee (c ∷ s) && not dotted then line ∷ rest else rest

pub record Call : Type 0 where
  pub file : Text
  pub line : ℕ
  pub fn : Text
  pub callee : Text

unfoldable pub calls_of : Text → SqlFunction → Text → List Call
calls_of file fn callee =
    map (λ line. record { file = file; line = line; fn = fn.name; callee = callee })
      (unqualified_calls callee false false fn.line fn.body)

unfoldable pub check_function : Text → SqlFunction → List Call
check_function file fn =
    if fn.has_set_search_path then [] else flat_map (calls_of file fn) search_path_sensitive

-- `checkUnqualifiedCalls`.
unfoldable pub check_unqualified_calls : Text → Text → List Call
check_unqualified_calls file text = flat_map (check_function file) (sql_function_bodies 0 1 text)

-- `DO\s+\$[A-Za-z_]*\$\s*BEGIN`.
unfoldable pub do_begin : Text → Option Text
do_begin s = do
  a ← any_case (lit "do") s
  b ← spaces a
  c ← dollar_tag b
  any_case (lit "begin") (skip_spaces c.1)

unfoldable pub has_semicolon : Text → Bool
has_semicolon s = any (λ c. c == b';') s

-- The same with `[^;]*$` behind it.
unfoldable pub opens_here : Text → Bool
opens_here s = is_some (do rest ← do_begin s; if has_semicolon rest then none else some rest)

unfoldable pub later_index : Option ℕ → Option ℕ
later_index none = none
later_index (some i) = some (suc i)

-- `before.search(…)`, with `none` for -1.
unfoldable pub last_do : Text → Option ℕ
last_do [] = none
last_do (c ∷ s) = let rest = later_index (last_do s) in if opens_here (c ∷ s) then some 0 else rest

unfoldable pub last_semi_at : ℕ → Option ℕ → Option ℕ
last_semi_at c (some i) = some (suc i)
last_semi_at c none = if c == b';' then some 0 else none

-- `before.lastIndexOf(';')`, with `none` for -1.
unfoldable pub last_semi : Text → Option ℕ
last_semi [] = none
last_semi (c ∷ s) = last_semi_at c (last_semi s)

-- `lastDo !== -1 && lastDo > lastSemi`.
unfoldable pub is_behind : Option ℕ → Option ℕ → Bool
is_behind none semi = false
is_behind (some i) none = true
is_behind (some i) (some j) = ltb j i

unfoldable pub is_guarded : Text → Bool
is_guarded before = is_behind (last_do before) (last_semi before)

-- `CREATE\s+POLICY\s+([\w"]+)`: the name and the text behind it.
unfoldable pub policy_header : Text → Option (Text × Text)
policy_header s = do
  a ← any_case (lit "create") s
  b ← spaces a
  c ← any_case (lit "policy") b
  d ← spaces c
  run_of (λ e. is_word e || e == b'"') d

pub record Policy : Type 0 where
  pub file : Text
  pub line : ℕ
  pub policy : Text

unfoldable pub policy_at : Text → ℕ → Text → Option (Text × Text) → List Policy → List Policy
policy_at file line before none policies = policies
policy_at file line before (some (name, rest)) policies =
    if is_guarded before
    then policies
    else record { file = file; line = line; policy = name } ∷ policies

-- `checkBarePolicies`, from a line on, with the text before.
unfoldable pub bare_policies : Text → (skip line : ℕ) (before : Text) → Text → List Policy
bare_policies file skip line before [] = []
bare_policies file (suc skip) line before (c ∷ s) =
    bare_policies file skip (next_line line c) (before ++ c ∷ []) s
bare_policies file zero line before (c ∷ s) =
    let found = policy_header (c ∷ s) in
    policy_at file line before found (
      bare_policies file (taken (c ∷ s) (found >>= λ f. some f.1)) (next_line line c)
        (before ++ c ∷ []) s)

unfoldable pub check_bare_policies : Text → Text → List Policy
check_bare_policies file text = bare_policies file 0 1 [] text
