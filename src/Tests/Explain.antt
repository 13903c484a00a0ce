-- ===== src/Tests/Explain.antt =====
-- A plan with a condition that must not be shown.
use Prim.Native.String
use dbprobe.Base.{◌==◌, if◌then◌else◌, String, some, true, ◌≡◌, refl}
use dbprobe.Base.GoStrings.{byte_len, trim_space, trim_left, trim_right, has_prefix}
use dbprobe.Base.Outcome.{Outcome, ok, err}
use dbprobe.Explain.Sanitizer.{
  Json, string, number, object, field, end, Codec, allows, sanitize_plan_value,
  sanitize_mysql_json_plan,
}
use dbprobe.Explain.Sanitizer.Laws.{IsClean, sanitize_mysql_json_plan-IsClean}
use dbprobe.Explain.Statement.{
  ExplainResult, contains_rune, upper_is, after_word, add_field, scan_fields, fields, are_next,
  has_unsafe_field, has_assignment, has_unsafe_explain_clause, validate_explain_statement,
  explained, explain_with_executor,
}
use dbprobe.Explain.Statement.Laws.{IsScreened, explain_with_executor-IsScreened}

abbrev raw_plan : Json
raw_plan = object (
    field "table"
      (object (
        field "table_name" (string "users") (
          field "attached_condition" (string "(email = 'a@b')")
            (field "rows_to_scan" (number "12") end))))
      end)

abbrev shown : Json
shown = object (
    field "table"
      (object (field "table_name" (string "users") (field "rows_to_scan" (number "12") end))) end)

abbrev pub codec : Codec
codec = record { decode = λ text. some (raw_plan, true); marshal = λ value. some "{}" }

condition_hidden : sanitize_plan_value "" raw_plan ≡ some shown
unfolding sanitize_plan_value allows
condition_hidden = refl

plan_sanitized : sanitize_mysql_json_plan codec "{}" ≡ ok "{}"
unfolding sanitize_mysql_json_plan byte_len
plan_sanitized = rw condition_hidden refl

sanitize_mysql_json_plan-IsClean_example :
    (root : Json) × IsClean "" root
    × (sanitize_plan_value "" root ≡ some root)
    × (codec.marshal root ≡ some "{}")
sanitize_mysql_json_plan-IsClean_example =
    sanitize_mysql_json_plan-IsClean codec "{}" "{}" plan_sanitized

abbrev pub database : String → Outcome String
database query = if query == "EXPLAIN FORMAT=JSON select 1" then ok "{}" else err "syntax error"

abbrev pub shown_result : ExplainResult
shown_result = record {
  engine = "mysql";
  format = "mysql-json-sanitized";
  estimated = true;
  sanitized = true;
  plan = "{}";
}

accepted : validate_explain_statement " select 1 " ≡ ok "select 1"
unfolding validate_explain_statement trim_space trim_left trim_right byte_len contains_rune
    after_word has_unsafe_explain_clause has_assignment has_prefix fields scan_fields add_field
    has_unsafe_field upper_is
accepted = refl

refused :
    validate_explain_statement "select 1 for Update"
    ≡ err "explain statement contains an unsupported clause"
unfolding validate_explain_statement trim_space trim_left trim_right byte_len contains_rune
    after_word has_unsafe_explain_clause has_assignment has_prefix fields scan_fields add_field
    has_unsafe_field upper_is are_next
refused = refl

-- a comment is no space for the code, which does not find the word INTO here
commented_into_passes :
    validate_explain_statement "select 1 into/**/outfile 'x'" ≡ ok "select 1 into/**/outfile 'x'"
unfolding validate_explain_statement trim_space trim_left trim_right byte_len contains_rune
    after_word has_unsafe_explain_clause has_assignment has_prefix fields scan_fields add_field
    has_unsafe_field upper_is are_next
commented_into_passes = refl

pub explained_run :
    explain_with_executor codec database (record { statement = " select 1 " }) ≡ ok shown_result
unfolding explain_with_executor explained trim_space trim_left trim_right
explained_run = rw (accepted, plan_sanitized) refl

explain_with_executor-IsScreened_example :
    (statement : String) × (plan : String) × (root : Json) × IsScreened statement
    × (database (String.◌++◌ "EXPLAIN FORMAT=JSON " statement) ≡ ok plan)
    × IsClean "" root
    × (codec.marshal root ≡ some "{}")
explain_with_executor-IsScreened_example =
    explain_with_executor-IsScreened codec database (record { statement = " select 1 " })
      shown_result explained_run
