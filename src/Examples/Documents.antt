-- ===== src/Examples/Documents.antt =====
-- The theorem on the text of documents at concrete inputs.
use cliptown_lib_core.Prelude.{◌≡◌, ◌≢◌}
use cliptown_lib_core.Text.{lit}
use cliptown_lib_core.Json.{Json, obj, str, member, end, null}
use cliptown_lib_core.Json.Canonical.{stable_stringify}
use cliptown_lib_core.Json.Reordered.{object, swapped, stable_stringify-Reordered}

abbrev one_order : Json
one_order = obj (member (lit "type") (str (lit "string")) (member (lit "format") null end))

abbrev other_order : Json
other_order = obj (member (lit "format") null (member (lit "type") (str (lit "string")) end))

names-differ : lit "type" ≢ lit "format"
unfolding lit
names-differ e = cc

stable_stringify-Reordered_example : stable_stringify one_order ≡ stable_stringify other_order
stable_stringify-Reordered_example =
    stable_stringify-Reordered one_order other_order (object (swapped names-differ))
