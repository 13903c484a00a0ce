-- ===== src/Explain/Statement.antt =====
-- adapters/mysql/explain.go: which statements are accepted, and what is sent to the database.
pub mod Words
pub mod Laws
use Prim.Native.Nat.{◌+◌, ◌-◌}
use Prim.Native.Char.{Char, code}
use Prim.Native.String.{String, [], ◌∷◌, ◌++◌}
use mathlib.Core.List.{List}
use mathlib.Core.List
use dbprobe.Base.{
  ℕ, ltb, leb, nat_eq, ◌*◌, ◌^◌, Option, none, some, Bool, true, false, not, ◌&&◌, ◌||◌, ◌==◌,
  if◌then◌else◌,
}
use dbprobe.Base.GoStrings.{byte_len, has_prefix, trim_space, is_space}
use dbprobe.Base.Outcome.{Outcome, ok, err, ◌>>=◌, ◌>>◌, fail_if}
use dbprobe.Explain.Sanitizer.{Codec, sanitize_mysql_json_plan}

abbrev pub max_explain_statement_bytes : ℕ
max_explain_statement_bytes = 64 * 2 ^ 10

pub record ExplainRequest : Type 0 where
  pub statement : String

pub record ExplainResult : Type 0 where
  pub engine : String
  pub format : String
  pub estimated : Bool
  pub sanitized : Bool
  pub plan : String

-- `strings.ContainsRune(s, r)`, by the code of the rune
unfoldable pub contains_rune : ℕ → String → Bool
contains_rune r [] = false
contains_rune r (c ∷ s) = nat_eq (code c) r || contains_rune r s

-- `unicode.ToUpper` by codes, as far as the capitals of ASCII are concerned: they are the upper case
-- of the small letters, of the dotless i and of the long s, and of no other letter
abbrev pub upper_code : ℕ → ℕ
upper_code c =
    if leb 97 c && leb c 122
    then c - 32
    else if nat_eq c 305
    then 73
    else if nat_eq c 383
    then 83
    else c

-- `strings.ToUpper(s) == word`, where the word has capitals of ASCII only
unfoldable pub upper_is : String → String → Bool
upper_is [] [] = true
upper_is [] (d ∷ word) = false
upper_is (c ∷ s) [] = false
upper_is (c ∷ s) (d ∷ word) = nat_eq (upper_code (code c)) (code d) && upper_is s word

abbrev pub small_code : ℕ → ℕ
small_code c = if leb 97 c && leb c 122 then c - 32 else c

-- The rest of a text after a word, if the text begins with it in small letters or capitals. The text
-- compared has as many bytes as the word, so a letter that is not of ASCII makes it differ.
unfoldable pub after_word : String → String → Option String
after_word s [] = some s
after_word [] (d ∷ word) = none
after_word (c ∷ s) (d ∷ word) =
    let rest = after_word s word in if nat_eq (small_code (code c)) (code d) then rest else none

-- what follows the word: nothing, or space first
abbrev pub is_separated : Option String → Bool
is_separated none = false
is_separated (some []) = true
is_separated (some (c ∷ rest)) = is_space c

-- the text up to a space, and the fields after it
unfoldable pub add_field : String → List String → List String
add_field word later = if word == "" then later else List.◌∷◌ word later

unfoldable pub scan_fields : String → String × List String
unfolding add_field
scan_fields [] = ("", List.[])
scan_fields (c ∷ s) =
    let (word, later) = scan_fields s in
    if is_space c then ("", add_field word later) else (c ∷ word, later)

-- `strings.Fields`
unfoldable pub fields : String → List String
unfolding scan_fields
fields s = let (word, later) = scan_fields s in add_field word later

-- the next fields are these words
unfoldable pub are_next : List String → List String → Bool
are_next following List.[] = true
are_next List.[] (List.◌∷◌ word words) = false
are_next (List.◌∷◌ f following) (List.◌∷◌ word words) = upper_is f word && are_next following words

-- the loop over the fields
unfoldable pub has_unsafe_field : List String → Bool
has_unsafe_field List.[] = false
has_unsafe_field (List.◌∷◌ f following) =
    upper_is f "INTO"
    || (upper_is f "FOR"
        && (are_next following (List.◌∷◌ "UPDATE" List.[])
            || are_next following (List.◌∷◌ "SHARE" List.[])))
    || (upper_is f "LOCK"
        && are_next following (List.◌∷◌ "IN" (List.◌∷◌ "SHARE" (List.◌∷◌ "MODE" List.[]))))
    || has_unsafe_field following

-- `strings.Contains(s, ":=")`
unfoldable pub has_assignment : String → Bool
has_assignment [] = false
has_assignment (c ∷ s) = has_prefix (c ∷ s) ":=" || has_assignment s

unfoldable pub has_unsafe_explain_clause : String → Bool
has_unsafe_explain_clause statement =
    has_assignment statement || has_unsafe_field (fields statement)

unfoldable pub validate_explain_statement : String → Outcome String
validate_explain_statement input = do
  let statement = trim_space input
  fail_if (statement == "") "explain statement is required"
  fail_if (ltb max_explain_statement_bytes (byte_len statement))
      "explain statement exceeds the maximum size"
  fail_if (contains_rune 0 statement || contains_rune 59 statement)
      "explain accepts one SELECT statement only"
  fail_if (not (is_separated (after_word statement "SELECT")))
      "explain accepts SELECT statements only"
  fail_if (has_unsafe_explain_clause statement) "explain statement contains an unsupported clause"
  ok statement

-- what is made of the plan; the message of the database is dropped
unfoldable pub explained : Codec → Outcome String → Outcome ExplainResult
explained codec (err message) = err "MySQL plan explain failed"
explained codec (ok plan) = do
  fail_if (trim_space plan == "") "MySQL plan explain returned an empty plan"
  sanitized_plan ← sanitize_mysql_json_plan codec plan
  ok (record {
    engine = "mysql";
    format = "mysql-json-sanitized";
    estimated = true;
    sanitized = true;
    plan = sanitized_plan;
  })

-- `executor` is `ExplainJSON`, which asks the database
unfoldable pub explain_with_executor :
    Codec → (String → Outcome String) → ExplainRequest → Outcome ExplainResult
unfolding explained
explain_with_executor codec executor request = do
  statement ← validate_explain_statement request.statement
  explained codec (executor ("EXPLAIN FORMAT=JSON " ++ statement))
