-- ===== src/Explain/Statement/Laws.antt =====
-- What is sent to the database, and what is shown of its answer.
use Prim.Native.String
use dbprobe.Explain.Statement.Words.{HasWords, HasWords-fields}
use dbprobe.Base.{
  ltb, String, some, true, false, not, ◌||◌, List, [], ◌∷◌, ◌++◌, ◌==◌, ◌≡◌, refl, subst, arith,
}
use dbprobe.Base.GoStrings.{byte_len, trim_space}
use dbprobe.Base.Outcome.{Outcome, ok, err, >>=-eq-ok, fail_if-eq-ok}
use dbprobe.Explain.Sanitizer.{Codec, Json, sanitize_mysql_json_plan}
use dbprobe.Explain.Sanitizer.Laws.{IsClean, sanitize_mysql_json_plan-IsClean}
use dbprobe.Explain.Statement.{
  max_explain_statement_bytes, ExplainRequest, ExplainResult, contains_rune, upper_is, after_word,
  is_separated, fields, are_next, has_unsafe_field, has_assignment, has_unsafe_explain_clause,
  validate_explain_statement, explained, explain_with_executor,
}

-- The clauses that are refused, by their words in capitals.
pub data IsUnsafe : List String → Type 0 where
  into : IsUnsafe ("INTO" ∷ [])
  for_update : IsUnsafe ("FOR" ∷ "UPDATE" ∷ [])
  for_share : IsUnsafe ("FOR" ∷ "SHARE" ∷ [])
  lock_in_share_mode : IsUnsafe ("LOCK" ∷ "IN" ∷ "SHARE" ∷ "MODE" ∷ [])

-- The words are those of a clause, in capitals or not.
abbrev pub AreWordsOf : List String → List String → Type 0
AreWordsOf [] [] = Unit
AreWordsOf (word ∷ words) (name ∷ names) = (upper_is word name ≡ true) × AreWordsOf words names
AreWordsOf [] (name ∷ names) = ⊥
AreWordsOf (word ∷ words) [] = ⊥

-- A statement that begins with the word SELECT, has no semicolon, NUL or assignment, and in which the
-- words of no refused clause stand anywhere, with space around each. It may have them with a comment in
-- place of a space.
pub record IsScreened (statement : String) : Type 0 where
  pub selects : is_separated (after_word statement "SELECT") ≡ true
  pub single : (contains_rune 0 statement ≡ false) × (contains_rune 59 statement ≡ false)
  pub assigns_nothing : has_assignment statement ≡ false
  pub has_no_clause :
      (clause words : List String)
      → IsUnsafe clause
      → AreWordsOf words clause
      → ¬ HasWords statement words

-- A list of fields that passes passes from any of them on.
has_unsafe_field-append :
    (before fs : List String)
    → has_unsafe_field (before ++ fs) ≡ false
    → has_unsafe_field fs ≡ false
unfolding has_unsafe_field
has_unsafe_field-append [] fs h = h
has_unsafe_field-append (g ∷ before) fs h = has_unsafe_field-append before fs (ground arith)

are_next-AreWordsOf :
    (words clause after : List String)
    → AreWordsOf words clause
    → are_next (words ++ after) clause ≡ true
unfolding are_next
are_next-AreWordsOf [] [] after h = refl
are_next-AreWordsOf [] (c ∷ clause) after h = elim h [ ]
are_next-AreWordsOf (w ∷ words) [] after h = elim h [ ]
are_next-AreWordsOf (w ∷ words) (c ∷ clause) after h =
    ground (arith, are_next-AreWordsOf words clause after h.1, h.0)

-- Fields that begin with the words of a refused clause are refused.
clause-refused :
    (fs clause : List String)
    → IsUnsafe clause
    → are_next fs clause ≡ true
    → has_unsafe_field fs ≡ true
unfolding has_unsafe_field are_next
clause-refused [] clause into h = ground arith
clause-refused [] clause for_update h = ground arith
clause-refused [] clause for_share h = ground arith
clause-refused [] clause lock_in_share_mode h = ground arith
clause-refused (f ∷ fs) clause into h = ground arith
clause-refused (f ∷ fs) clause for_update h = ground arith
clause-refused (f ∷ fs) clause for_share h = ground arith
clause-refused (f ∷ fs) clause lock_in_share_mode h = ground arith

has_no_clause :
    (s : String)
    → has_unsafe_field (fields s) ≡ false
    → (clause words : List String) → IsUnsafe clause
    → AreWordsOf words clause
    → ¬ HasWords s words
has_no_clause s safe clause words m w h =
    let (before, after, e) = HasWords-fields h in
    let passes =
      has_unsafe_field-append before (words ++ after)
        (subst (λ l. has_unsafe_field l ≡ false) e safe) in
    let refused =
      clause-refused (words ++ after) clause m (are_next-AreWordsOf words clause after w) in
    absurd (ground arith)

validate_explain_statement-IsScreened :
    (input : String) {statement : String}
    → validate_explain_statement input ≡ ok statement
    → IsScreened statement
unfolding validate_explain_statement has_unsafe_explain_clause
validate_explain_statement-IsScreened input {statement} h =
    let s = trim_space input in
    let (_, h1) = fail_if-eq-ok (s == "") "explain statement is required" _ h in
    let (_, h2) =
      fail_if-eq-ok (ltb max_explain_statement_bytes (byte_len s))
        "explain statement exceeds the maximum size" _ h1 in
    let (one, h3) =
      fail_if-eq-ok (contains_rune 0 s || contains_rune 59 s)
        "explain accepts one SELECT statement only" _ h2 in
    let (word, h4) =
      fail_if-eq-ok (not (is_separated (after_word s "SELECT")))
        "explain accepts SELECT statements only" _ h3 in
    let (clauses, h5) =
      fail_if-eq-ok (has_assignment s || has_unsafe_field (fields s))
        "explain statement contains an unsupported clause" _ h4 in
    let e : s ≡ statement = cc in
    subst IsScreened e (record {
      selects = ground arith;
      single = (ground arith, ground arith);
      assigns_nothing = ground arith;
      has_no_clause = has_no_clause s (ground arith);
    })

explained-IsClean :
    (codec : Codec) (answer : Outcome String) {result : ExplainResult}
    → explained codec answer ≡ ok result
    → (plan : String) × (answer ≡ ok plan)
      × (root : Json) × IsClean "" root
      × (codec.marshal root ≡ some result.plan)
unfolding explained
explained-IsClean codec (err message) h = cc
explained-IsClean codec (ok plan) {result} h =
    let (_, h1) =
      fail_if-eq-ok (trim_space plan == "") "MySQL plan explain returned an empty plan" _ h in
    let (text, sanitized, h2) = >>=-eq-ok (sanitize_mysql_json_plan codec plan) _ h1 in
    let (root, clean, _, written) = sanitize_mysql_json_plan-IsClean codec plan text sanitized in
    let e : text ≡ result.plan = cc in
    (plan, refl, root, clean, subst (λ t. codec.marshal root ≡ some t) e written)

-- An explanation that succeeds has sent the database one statement, as a statement to explain. That
-- statement begins with the word SELECT, has no semicolon, NUL or `:=`, and has nowhere, between space,
-- the words INTO, FOR UPDATE, FOR SHARE or LOCK IN SHARE MODE. What is shown is the JSON of a value that
-- holds nothing but what the lists of keys allow.
pub explain_with_executor-IsScreened :
    (codec : Codec) (executor : String → Outcome String) (request : ExplainRequest)
    (result : ExplainResult)
    → explain_with_executor codec executor request ≡ ok result
    → (statement : String) × (plan : String) × (root : Json) × IsScreened statement
      × (executor (String.◌++◌ "EXPLAIN FORMAT=JSON " statement) ≡ ok plan)
      × IsClean "" root
      × (codec.marshal root ≡ some result.plan)
unfolding explain_with_executor
explain_with_executor-IsScreened codec executor request result h =
    let (statement, valid, h1) = >>=-eq-ok (validate_explain_statement request.statement) _ h in
    let (plan, answered, root, clean, written) =
      explained-IsClean codec (executor (String.◌++◌ "EXPLAIN FORMAT=JSON " statement)) h1 in
    (
      statement,
      plan,
      root,
      validate_explain_statement-IsScreened request.statement valid,
      answered,
      clean,
      written,
    )
