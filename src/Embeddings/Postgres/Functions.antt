-- ===== src/Embeddings/Postgres/Functions.antt =====
-- scripts/embeddings/generate.mjs, the PostgreSQL schema: the functions that the checks and queries call.
use cliptown_lib_core.Prelude.{◌∷◌, List, ◌++◌, []}
use cliptown_lib_core.Text.{Text, lit}
use cliptown_lib_core.Embeddings.{Setup, ns, tol, w}

unfoldable pub width_functions : Setup → List Text
width_functions s =
    lit "-- ---------------------------------------------------------------------"
    ∷ lit "-- Helper functions. Bodies are fully schema-qualified and carry no SET"
    ∷ lit "-- clause, so the planner can still inline them into the CHECK constraints"
    ∷ lit "-- and the query predicates that call them."
    ∷ lit "-- ---------------------------------------------------------------------"
    ∷ []
    ∷ (lit "create or replace function " ++ ns s ++ lit ".emb_width() returns integer")
    ∷ lit "  language sql immutable parallel safe"
    ∷ (lit "  as $$ select " ++ w s ++ lit " $$;")
    ∷ []
    ∷ (lit "comment on function " ++ ns s ++ lit ".emb_width() is")
    ∷ lit
        "  'Canonical stored embedding width. Single source of truth for the padding logic on every client.';"
    ∷ []
    ∷ lit "-- Right zero-pad a native-width vector up to the canonical width. Returns"
    ∷ lit "-- null for a vector that is already too wide, so a bad write fails the"
    ∷ lit "-- not-null constraint rather than silently truncating."
    ∷ (lit "create or replace function " ++ ns s ++ lit ".emb_pad(v extensions.vector)")
    ∷ lit "  returns extensions.vector"
    ∷ lit "  language sql immutable parallel safe"
    ∷ lit "  as $$"
    ∷ lit "    select case"
    ∷ lit "      when v is null then null"
    ∷ (lit "      when extensions.vector_dims(v) = " ++ w s ++ lit " then v")
    ∷ (lit "      when extensions.vector_dims(v) > " ++ w s ++ lit " then null")
    ∷ (lit "      else ((v::real[]) || array_fill(0::real, array["
        ++ w s
        ++ lit " - extensions.vector_dims(v)]))::extensions.vector")
    ∷ lit "    end"
    ∷ lit "  $$;"
    ∷ []
    ∷ []

unfoldable pub check_functions : Setup → List Text
check_functions s =
    lit "-- True when the vector is exactly the canonical width and every component"
    ∷ lit "-- past native_dims is exactly zero. This is what stops a 1536-dimension"
    ∷ (lit "-- vector from being written into the " ++ w s ++ lit " slot with garbage in the tail.")
    ∷ (lit "create or replace function "
        ++ ns s
        ++ lit ".emb_is_zero_padded(v extensions.vector, native_dims integer)")
    ∷ lit "  returns boolean"
    ∷ lit "  language sql immutable parallel safe"
    ∷ lit "  as $$"
    ∷ lit "    select case"
    ∷ lit "      when v is null or native_dims is null then false"
    ∷ (lit "      when extensions.vector_dims(v) <> " ++ w s ++ lit " then false")
    ∷ (lit "      when native_dims < 1 or native_dims > " ++ w s ++ lit " then false")
    ∷ (lit "      when native_dims = " ++ w s ++ lit " then true")
    ∷ (lit "      else extensions.l2_norm(extensions.subvector(v, native_dims + 1, "
        ++ w s
        ++ lit " - native_dims)) = 0")
    ∷ lit "    end"
    ∷ lit "  $$;"
    ∷ []
    ∷ lit "-- Unit norm is what makes cosine, inner product and L2 rank-equivalent, which"
    ∷ lit "-- is what lets these same rows serve a pgvector cosine index on Postgres and"
    ∷ lit "-- an L2-only vector index on CockroachDB without a second copy of the data."
    ∷ (lit "create or replace function "
        ++ ns s
        ++ lit ".emb_is_unit(v extensions.vector, tol double precision default "
        ++ tol s
        ++ lit ")")
    ∷ lit "  returns boolean"
    ∷ lit "  language sql immutable parallel safe"
    ∷ lit "  as $$"
    ∷ lit "    select v is not null and abs(extensions.l2_norm(v) - 1) <= tol"
    ∷ lit "  $$;"
    ∷ []
    ∷ []
