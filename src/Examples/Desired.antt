-- ===== src/Examples/Desired.antt =====
-- The theorems on the lint of the desired SQL at concrete inputs.
use mathlib.Core.List.{flat_map}
use cliptown_lib_core.Prelude.{◌≡◌, refl, inl, inr, true, false, [], ◌∷◌, ◌++◌, In, is_empty, keep}
use cliptown_lib_core.Text.{
  is_space, is_word, is_alnum, is_alpha, is_digit, is_upper, is_lower, is_blank, includes,
  starts_with, to_lower, lower_char, lit, Text,
}
use cliptown_lib_core.Text.Cut.{after_word, cut, cut_at}
use cliptown_lib_core.DesiredSql.{
  check_unqualified_calls, sql_function_bodies, function_at, with_function, sets_search_path,
  sets_here, next_line, taken, check_function, calls_of, unqualified_calls, calls_here, qualifies,
  check_bare_policies, bare_policies, policy_at, policy_header, is_guarded, SqlFunction,
}
use cliptown_lib_core.DesiredSql.Patterns.{
  any_case, spaces, skip_spaces, unit, span, run_of, is_name, is_tag, dollar_tag, or_replace,
  as_tag, preamble_at, find_as, returns_at, or_later, find_returns, function_header,
}
use cliptown_lib_core.DesiredSql.Report.{
  report, report_problems, all_calls, all_policies, checked, is_cockroach, Files,
}
use cliptown_lib_core.DesiredSql.Calls.{IsQualified, ends_word, sensitive_names, report-IsQualified}

abbrev desired : Files
desired =
    (
      lit "sql/desired.sql",
      lit "CREATE FUNCTION pad(v vector) RETURNS int AS $$ SELECT public.vector_dims(v) $$;",
    )
    ∷ []

abbrev desired_file : Text × Text
desired_file = (
  lit "sql/desired.sql",
  lit "CREATE FUNCTION pad(v vector) RETURNS int AS $$ SELECT public.vector_dims(v) $$;",
)

abbrev pad : SqlFunction
pad = record {
  name = lit "pad";
  body = lit " SELECT public.vector_dims(v) ";
  has_set_search_path = false;
  line = 1;
}

desired-clean : (report desired).exit_code ≡ 0
unfolding report report_problems is_empty all_calls all_policies flat_map checked keep is_cockroach
    includes starts_with to_lower lower_char lit check_unqualified_calls sql_function_bodies
    function_at function_header with_function cut cut_at after_word sets_search_path sets_here
    any_case spaces skip_spaces unit span run_of is_name is_tag dollar_tag or_replace as_tag
    preamble_at find_as returns_at or_later find_returns next_line taken check_function calls_of
    unqualified_calls calls_here qualifies check_bare_policies bare_policies policy_at policy_header
    is_guarded is_space is_word is_alnum is_alpha is_digit is_upper is_lower is_blank
desired-clean = refl

desired-checked : In desired_file (checked desired)
unfolding report report_problems is_empty all_calls all_policies flat_map checked keep is_cockroach
    includes starts_with to_lower lower_char lit check_unqualified_calls sql_function_bodies
    function_at function_header with_function cut cut_at after_word sets_search_path sets_here
    any_case spaces skip_spaces unit span run_of is_name is_tag dollar_tag or_replace as_tag
    preamble_at find_as returns_at or_later find_returns next_line taken check_function calls_of
    unqualified_calls calls_here qualifies check_bare_policies bare_policies policy_at policy_header
    is_guarded is_space is_word is_alnum is_alpha is_digit is_upper is_lower is_blank
desired-checked = inl refl

pad-found : In pad (sql_function_bodies 0 1 desired_file.1)
unfolding report report_problems is_empty all_calls all_policies flat_map checked keep is_cockroach
    includes starts_with to_lower lower_char lit check_unqualified_calls sql_function_bodies
    function_at function_header with_function cut cut_at after_word sets_search_path sets_here
    any_case spaces skip_spaces unit span run_of is_name is_tag dollar_tag or_replace as_tag
    preamble_at find_as returns_at or_later find_returns next_line taken check_function calls_of
    unqualified_calls calls_here qualifies check_bare_policies bare_policies policy_at policy_header
    is_guarded is_space is_word is_alnum is_alpha is_digit is_upper is_lower is_blank
pad-found = inl refl

pad-parted : pad.body ≡ lit " SELECT public." ++ lit "vector_dims(v) "
unfolding lit
pad-parted = refl

pad-word : ends_word false (lit " SELECT public.") ≡ false
unfolding ends_word lit is_word
pad-word = refl

pad-calls : calls_here (lit "vector_dims") (lit "vector_dims(v) ") ≡ true
unfolding report report_problems is_empty all_calls all_policies flat_map checked keep is_cockroach
    includes starts_with to_lower lower_char lit check_unqualified_calls sql_function_bodies
    function_at function_header with_function cut cut_at after_word sets_search_path sets_here
    any_case spaces skip_spaces unit span run_of is_name is_tag dollar_tag or_replace as_tag
    preamble_at find_as returns_at or_later find_returns next_line taken check_function calls_of
    unqualified_calls calls_here qualifies check_bare_policies bare_policies policy_at policy_header
    is_guarded is_space is_word is_alnum is_alpha is_digit is_upper is_lower is_blank
pad-calls = refl

dims-listed : In (lit "vector_dims") sensitive_names
dims-listed = inr (inr (inr (inr (inr (inr (inr (inr (inr (inl refl)))))))))

report-IsQualified_example : IsQualified (lit " SELECT public.")
report-IsQualified_example =
    report-IsQualified desired desired_file pad (lit "vector_dims") (lit " SELECT public.")
      (lit "vector_dims(v) ") desired-clean desired-checked pad-found refl dims-listed pad-parted
      pad-word pad-calls
