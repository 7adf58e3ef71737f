-- ===== src/Embeddings/Split.antt =====
-- scripts/embeddings/generate.mjs: the sentinel of the PostgreSQL schema is found in every setup.
use cliptown_lib_core.Prelude.{◌≡◌, refl, sym, ap, ◌∙◌, inl, inr, ◌∷◌, ◌++◌, In, ok, append_assoc}
use cliptown_lib_core.Text.{Text, lit}
use cliptown_lib_core.Codegen.Files.{FileList}
use cliptown_lib_core.Embeddings.{Setup}
use cliptown_lib_core.Embeddings.Spelling.{unlines}
use cliptown_lib_core.Embeddings.Postgres.{
  split_mark, first_lines, second_lines, postgres_source, behind_begin, without_commit, pg_body,
  before_cut, parts_at, pg_parts,
}
use cliptown_lib_core.Text.Cut.{cut}
use cliptown_lib_core.Embeddings.Postgres.Registry.{postgres_opening}
use cliptown_lib_core.Embeddings.Outputs.{setup_outputs, outputs_with}
use cliptown_lib_core.Embeddings.Cuts.{cut-append, without_commit-mark, unlines-append, unlines-In}

pub begin_line : (s : Setup) → In (lit "begin;") (first_lines s)
unfolding first_lines postgres_opening
begin_line s = inr (inr (inr (inr (inr (inr (inr (inl refl)))))))

-- The text around the sentinel.
pub postgres_source-mark :
    (s : Setup)
    → postgres_source s ≡ unlines (first_lines s) ++ (split_mark ++ 10 ∷ unlines (second_lines s))
unfolding postgres_source unlines
postgres_source-mark s = unlines-append (first_lines s) (split_mark ∷ second_lines s)

-- The text behind `begin;` holds the sentinel.
pub behind_begin-mark :
    (s : Setup)
    → (u : Text) × (behind_begin (postgres_source s)
        ≡ u ++ (split_mark ++ 10 ∷ unlines (second_lines s)))
unfolding behind_begin lit
behind_begin-mark s =
    let rest = split_mark ++ 10 ∷ unlines (second_lines s) in
    let (x, y, e) = unlines-In (lit "begin;") (first_lines s) (begin_line s) in
    let (before, z, h) = cut-append b'b' (lit "egin;") x (y ++ rest) in
    let whole : postgres_source s ≡ x ++ (lit "begin;" ++ (y ++ rest)) =
      postgres_source-mark s ∙ ap (λ t. t ++ rest) e ∙ append_assoc x (lit "begin;" ++ y) rest in
    (z ++ y, rw (whole, h) (sym (append_assoc z y rest)))

-- The two parts exist, whatever the setup holds.
pub pg_parts_total : (s : Setup) → (parts : Text × Text) × (pg_parts (pg_body s) ≡ ok parts)
unfolding pg_parts parts_at pg_body lit
pg_parts_total s =
    let (u, e) = behind_begin-mark s in
    let rest = without_commit (10 ∷ unlines (second_lines s)) in
    let (before, z, h) = cut-append b'-' (lit "-@@SCHEMA-SPLIT@@") u rest in
    (
      (before, before_cut (z ++ rest) (cut split_mark (z ++ rest))),
      rw (e, without_commit-mark u (10 ∷ unlines (second_lines s)), h) refl,
    )

-- For every setup the generator has its files: the error `schema split sentinel missing` is never
-- thrown.
pub setup_outputs_total : (s : Setup) → (files : FileList) × (setup_outputs s ≡ ok files)
unfolding setup_outputs
setup_outputs_total s = let (parts, e) = pg_parts_total s in (outputs_with s parts, rw e refl)
