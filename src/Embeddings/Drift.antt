-- ===== src/Embeddings/Drift.antt =====
-- scripts/embeddings/generate.mjs: the declared PostgreSQL schema and the two parts that the
-- migration takes from it are the same text.
use cliptown_lib_core.Prelude.{
  ◌≡◌, refl, sym, ap, ap₂, ◌∙◌, [], ◌∷◌, ◌++◌, none, some, ok, append_assoc,
}
use cliptown_lib_core.Text.{Text, lit}
use cliptown_lib_core.Embeddings.{Setup}
use cliptown_lib_core.Embeddings.Spelling.{unlines}
use cliptown_lib_core.Embeddings.Postgres.{
  split_mark, first_lines, body_lines, second_lines, postgres_source, behind, behind_begin,
  without_commit, pg_body, before_cut, parts_at, pg_parts, joined, postgres,
}
use cliptown_lib_core.Text.Cut.{cut_at, cut}
use cliptown_lib_core.Embeddings.Postgres.Indexes.{commit_lines}
use cliptown_lib_core.Embeddings.Cuts.{cut-append, without_commit-mark, unlines-append, unlines-In}
use cliptown_lib_core.Embeddings.Split.{begin_line, postgres_source-mark}
use cliptown_lib_core.Embeddings.Cuts.First.{
  cut-eq-some, cut-suffix, append-cancel, cut-longer, cut-more, without_commit-end,
}

-- The text behind the sentinel, up to `commit;`.
second_lines-commit :
    (s : Setup) → unlines (second_lines s) ≡ unlines (body_lines s) ++ lit "\ncommit;\n"
unfolding second_lines commit_lines unlines lit
second_lines-commit s = unlines-append (body_lines s) commit_lines

-- The template's sentinel is the only one: no value that the setup fills in holds it.
abbrev pub HasOneMark : Setup → Type 0
HasOneMark s =
    (cut split_mark (unlines (first_lines s) ++ split_mark) ≡ some (unlines (first_lines s), []))
    × (cut split_mark (unlines (body_lines s)) ≡ none)

regroup : (p q r s t : Text) → p ++ (q ++ (r ++ (s ++ t))) ≡ ((p ++ q) ++ (r ++ s)) ++ t
regroup p q r s t = sym (
    append_assoc (p ++ q) (r ++ s) t
    ∙ append_assoc p q ((r ++ s) ++ t)
    ∙ ap (λ u. p ++ (q ++ u)) (append_assoc r s t))

-- The first part runs from `begin;` to the sentinel.
first_part :
    (s : Setup)
    → (head : Text) × (part : Text) × (unlines (first_lines s) ≡ (head ++ lit "begin;") ++ part)
      × (behind_begin (postgres_source s) ≡ part ++ (split_mark ++ 10 ∷ unlines (second_lines s)))
unfolding behind_begin behind lit
first_part s =
    let rest = split_mark ++ 10 ∷ unlines (second_lines s) in
    let (x, y, e) = unlines-In (lit "begin;") (first_lines s) (begin_line s) in
    let (before, z, h) = cut-append b'b' (lit "egin;") x (y ++ rest) in
    let whole : postgres_source s ≡ x ++ (lit "begin;" ++ (y ++ rest)) =
      postgres_source-mark s ∙ ap (λ t. t ++ rest) e ∙ append_assoc x (lit "begin;" ++ y) rest in
    let found : cut (lit "begin;") (postgres_source s) ≡ some (before, z ++ (y ++ rest)) =
      ap (cut (lit "begin;")) whole ∙ h in
    let parted = cut-eq-some (lit "begin;") (postgres_source s) before (z ++ (y ++ rest)) found in
    let both : unlines (first_lines s) ++ rest ≡ ((before ++ lit "begin;") ++ (z ++ y)) ++ rest =
      sym (postgres_source-mark s) ∙ parted ∙ regroup before (lit "begin;") z y rest in
    (
      before,
      z ++ y,
      append-cancel (unlines (first_lines s)) ((before ++ lit "begin;") ++ (z ++ y)) rest both,
      rw found (sym (append_assoc z y rest)),
    )

-- `a` and `b` are the parts of the schema, which differs from them in what stands around them.
pub IsParted : Setup → (head a b : Text) → Type 0
IsParted s head a b =
    (pg_parts (pg_body s) ≡ ok (a, 10 ∷ b))
    × (postgres s ≡ ((head ++ lit "begin;") ++ a) ++ (b ++ lit "\ncommit;\n"))

-- Where no value of the setup holds the sentinel, the two parts that the migration takes over are,
-- one behind the other, the text of the declared schema from `begin;` to `commit;`.
pub pg_parts-postgres :
    (s : Setup) → HasOneMark s → (head : Text) × (a : Text) × (b : Text) × IsParted s head a b
unfolding IsParted pg_parts parts_at before_cut pg_body postgres joined cut cut_at lit
pg_parts-postgres s (first, second) =
    let (head, a, e, body) = first_part s in
    let b = unlines (body_lines s) in
    let tail : without_commit (10 ∷ unlines (second_lines s)) ≡ 10 ∷ b =
      ap (λ t. without_commit (10 ∷ t)) (second_lines-commit s) ∙ without_commit-end (10 ∷ b) in
    let stripped : pg_body s ≡ a ++ (split_mark ++ 10 ∷ b) =
      ap without_commit body
      ∙ without_commit-mark a (10 ∷ unlines (second_lines s))
      ∙ ap (λ t. a ++ (split_mark ++ t)) tail in
    let mark_first : cut split_mark (a ++ split_mark) ≡ some (a, []) =
      cut-suffix split_mark (head ++ lit "begin;") (a ++ split_mark) a [] (
        ap (cut split_mark) (sym (append_assoc (head ++ lit "begin;") a split_mark))
        ∙ (rw e at first)) in
    let parts : cut split_mark (pg_body s) ≡ some (a, 10 ∷ b) =
      ap (cut split_mark) stripped
      ∙ cut-more b'-' (lit "-@@SCHEMA-SPLIT@@") a (10 ∷ b) mark_first in
    let whole : cut (split_mark ++ 10 ∷ []) (postgres_source s)
        ≡ some (unlines (first_lines s), unlines (second_lines s)) =
      ap (cut (split_mark ++ 10 ∷ [])) (postgres_source-mark s)
      ∙ cut-longer b'-' (lit "-@@SCHEMA-SPLIT@@") (10 ∷ []) (unlines (first_lines s))
          (unlines (second_lines s)) first in
    (
      head,
      a,
      b,
      (
        ap parts_at parts ∙ rw second refl,
        ap (joined (postgres_source s)) whole ∙ ap₂ (λ t u. t ++ u) e (second_lines-commit s),
      ),
    )
