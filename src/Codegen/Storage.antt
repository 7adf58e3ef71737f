-- ===== src/Codegen/Storage.antt =====
-- tools/schema-orm-codegen.mjs and scripts/embeddings/generate.mjs: what the file system keeps of a
-- text that is written as UTF-8, and of a path from the root of a directory.
use mathlib.Core.List.{reverse}
use cliptown_lib_core.Prelude.{
  Bool, false, not, ◌&&◌, ◌||◌, List, [], ◌∷◌, ◌++◌, ◌==◌, if◌then◌else◌, all,
}
use cliptown_lib_core.Text.{Text, lit, text_eq, is_one_of, starts_with, join}
use cliptown_lib_core.Json.Stringify.{is_high, is_low, starts_low}

-- A text as `readFileSync` reads it after `writeFileSync`, both with 'utf8': a surrogate without its
-- other half is written as the replacement character. The flag tells whether the unit before is the
-- first half of a pair.
unfoldable pub stored_from : Bool → Text → Text
unfolding is_high is_low starts_low
stored_from before [] = []
stored_from before (c ∷ s) =
    let paired = if is_high c then starts_low s else before in
    let rest = stored_from (is_high c) s in
    if (is_high c || is_low c) && not paired then 0xfffd ∷ rest else c ∷ rest

unfoldable pub stored : Text → Text
unfolding stored_from
stored s = stored_from false s

-- The segments of a path; the first argument holds the units read of the current one.
unfoldable pub segments_from : Text → Text → List Text
segments_from cur [] = cur ∷ []
segments_from cur (c ∷ s) =
    let rest = segments_from (if c == b'/' then [] else cur ++ c ∷ []) s in
    if c == b'/' then cur ∷ rest else rest

unfoldable pub segments : Text → List Text
unfolding segments_from
segments path = segments_from [] path

-- One segment up from a list of segments, whose last one stands first. A path that leaves the root
-- keeps its `..`.
unfoldable pub climb : List Text → List Text
unfolding text_eq lit
climb [] = lit ".." ∷ []
climb (last ∷ before) = if text_eq last (lit "..") then lit ".." ∷ last ∷ before else before

unfoldable pub enter : List Text → Text → List Text
unfolding climb is_one_of text_eq lit
enter at segment =
    if is_one_of segment ([] ∷ lit "." ∷ [])
    then at
    else if text_eq segment (lit "..")
    then climb at
    else segment ∷ at

unfoldable pub walk : List Text → List Text → List Text
unfolding enter
walk at [] = at
walk at (s ∷ ss) = walk (enter at s) ss

-- `resolve(root, path)` for a relative path, without the root and with the separator `/`, as the
-- file system keeps the name.
unfoldable pub resolve_path : Text → Text
unfolding walk segments join stored lit
resolve_path path = stored (join (lit "/") (reverse (walk [] (segments path))))

unfoldable pub is_plain_segment : Text → Bool
unfolding is_one_of lit
is_plain_segment segment = not (is_one_of segment ([] ∷ lit "." ∷ lit ".." ∷ []))

-- Whether the second path lies below the first.
unfoldable pub lies_below : Text → Text → Bool
unfolding starts_with lit
lies_below above path = starts_with path (above ++ lit "/")

-- Whether the paths have neither `.`, `..` nor empty segments and none lies below another, so that
-- files may stand at all of them.
unfoldable pub are_plain : List Text → Bool
unfolding all is_plain_segment segments lies_below
are_plain paths =
    all (λ path. all is_plain_segment (segments path)) paths
    && all (λ above. all (λ path. not (lies_below above path)) paths) paths
