-- ===== src/Explain/Sanitizer.antt =====
-- adapters/mysql/explain_sanitize.go: what is kept of a plan in JSON.
pub mod Laws
use dbprobe.Base.{
  ℕ, ltb, ◌^◌, String, Option, none, some, Bool, true, false, ◌||◌, List, [], ◌∷◌, ◌==◌,
  if◌then◌else◌,
}
use dbprobe.Base.GoStrings.{byte_len}
use dbprobe.Base.Lists.{any}
use dbprobe.Base.Outcome.{Outcome, ok, err, ◌>>=◌, ◌>>◌, fail_if}

abbrev pub max_explain_plan_bytes : ℕ
max_explain_plan_bytes = 2 ^ 20

abbrev pub safe_plan_string_keys : List String
safe_plan_string_keys =
    "access_type" ∷ "data_read_per_join" ∷ "eval_cost" ∷ "key" ∷ "key_length" ∷ "prefix_cost"
    ∷ "query_cost" ∷ "read_cost" ∷ "schema_name" ∷ "sort_cost" ∷ "table_name" ∷ "using_join_buffer"
    ∷ []

abbrev pub safe_plan_string_slice_keys : List String
safe_plan_string_slice_keys = "possible_keys" ∷ "used_columns" ∷ "used_key_parts" ∷ []

abbrev pub safe_plan_number_keys : List String
safe_plan_number_keys =
    "select_id" ∷ "rows_examined_per_scan" ∷ "rows_produced_per_join" ∷ "filtered" ∷ "rows_for_plan"
    ∷ "rows_to_scan" ∷ []

abbrev pub safe_plan_bool_keys : List String
safe_plan_bool_keys =
    "using_index" ∷ "using_index_condition" ∷ "using_temporary_table" ∷ "using_filesort"
    ∷ "dependent" ∷ "cacheable" ∷ "using_mrr" ∷ []

-- whether a key is in one of these sets
unfoldable pub allows : List String → String → Bool
allows keys key = any (λ k. k == key) keys

-- What `Decode` gives with `UseNumber`: a number is its text, an object its fields in some order.
mutual
  pub data Json : Type 0 where
    null : Json
    boolean : Bool → Json
    number : String → Json
    string : String → Json
    array : Items → Json
    object : Fields → Json

  pub data Items : Type 0 where
    nil : Items
    cons : Json → Items → Items

  pub data Fields : Type 0 where
    end : Fields
    field : String → Json → Fields → Fields

abbrev pub keep_if : Bool → Json → Option Json
keep_if true value = some value
keep_if false value = none

-- an object that may have lost all its fields
abbrev pub object_or_nil : Fields → Option Json
object_or_nil end = none
object_or_nil (field key value fields) = some (object (field key value fields))

-- `if cleaned != nil { out[childKey] = cleaned }`
abbrev pub put_value : String → Option Json → Fields → Fields
put_value key none fields = fields
put_value key (some value) fields = field key value fields

-- `if len(cleaned) > 0 { out[childKey] = cleaned }`
abbrev pub put_slice : String → Items → Fields → Fields
put_slice key nil fields = fields
put_slice key (cons value items) fields = field key (array (cons value items)) fields

-- `if cleaned != nil { out = append(out, cleaned) }`
abbrev pub append_value : Option Json → Items → Items
append_value none items = items
append_value (some value) items = cons value items

unfoldable mutual
  -- `key` is the key under which the value stands
  pub sanitize_plan_value : String → Json → Option Json
  sanitize_plan_value key (object fields) = object_or_nil (sanitize_fields fields)
  sanitize_plan_value key (array items) = some (array (sanitize_plan_slice key items))
  sanitize_plan_value key (string text) = keep_if (allows safe_plan_string_keys key) (string text)
  sanitize_plan_value key (number text) = keep_if (allows safe_plan_number_keys key) (number text)
  sanitize_plan_value key (boolean b) = keep_if (allows safe_plan_bool_keys key) (boolean b)
  sanitize_plan_value key null = none

  -- the loop over the fields of an object
  pub sanitize_fields : Fields → Fields
  sanitize_fields end = end
  sanitize_fields (field key (string text) fields) =
      put_value key (keep_if (allows safe_plan_string_keys key) (string text))
        (sanitize_fields fields)
  sanitize_fields (field key (array items) fields) =
      put_slice key (sanitize_plan_slice key items) (sanitize_fields fields)
  sanitize_fields (field key (object inner) fields) =
      put_value key (sanitize_plan_value key (object inner)) (sanitize_fields fields)
  sanitize_fields (field key (number text) fields) =
      put_value key (sanitize_plan_value key (number text)) (sanitize_fields fields)
  sanitize_fields (field key (boolean b) fields) =
      put_value key (sanitize_plan_value key (boolean b)) (sanitize_fields fields)
  sanitize_fields (field key null fields) =
      put_value key (sanitize_plan_value key null) (sanitize_fields fields)

  pub sanitize_plan_slice : String → Items → Items
  sanitize_plan_slice key nil = nil
  sanitize_plan_slice key (cons (string text) items) =
      append_value (keep_if (allows safe_plan_string_slice_keys key) (string text))
        (sanitize_plan_slice key items)
  sanitize_plan_slice key (cons (array inner) items) =
      append_value (sanitize_plan_value key (array inner)) (sanitize_plan_slice key items)
  sanitize_plan_slice key (cons (object inner) items) =
      append_value (sanitize_plan_value key (object inner)) (sanitize_plan_slice key items)
  sanitize_plan_slice key (cons (number text) items) =
      append_value (sanitize_plan_value key (number text)) (sanitize_plan_slice key items)
  sanitize_plan_slice key (cons (boolean b) items) =
      append_value (sanitize_plan_value key (boolean b)) (sanitize_plan_slice key items)
  sanitize_plan_slice key (cons null items) =
      append_value (sanitize_plan_value key null) (sanitize_plan_slice key items)

-- What the standard library does: `Decode` of the first value, whether nothing but space follows it,
-- and `Marshal`.
pub record Codec : Type 0 where
  pub decode : String → Option (Json × Bool)
  pub marshal : Json → Option String

abbrev pub invalid_plan : Outcome Json
invalid_plan = err "invalid MySQL JSON plan"

-- the checks of the decoded value: it is an object, and nothing follows
abbrev pub decoded_object : Option (Json × Bool) → Outcome Json
decoded_object (some (object fields, true)) = ok (object fields)
decoded_object (some (object fields, false)) = invalid_plan
decoded_object (some (null, ends)) = invalid_plan
decoded_object (some (boolean b, ends)) = invalid_plan
decoded_object (some (number text, ends)) = invalid_plan
decoded_object (some (string text, ends)) = invalid_plan
decoded_object (some (array items, ends)) = invalid_plan
decoded_object none = invalid_plan

abbrev pub safe_root : Option Json → Outcome Json
safe_root (some root) = ok root
safe_root none = err "MySQL JSON plan contains no safe metadata"

abbrev pub encoded : Option String → Outcome String
encoded (some text) = ok text
encoded none = err "sanitize MySQL JSON plan"

unfoldable pub sanitize_mysql_json_plan : Codec → String → Outcome String
sanitize_mysql_json_plan codec raw = do
  fail_if (ltb max_explain_plan_bytes (byte_len raw)) "MySQL JSON plan exceeds the maximum size"
  value ← decoded_object (codec.decode raw)
  root ← safe_root (sanitize_plan_value "" value)
  encoded (codec.marshal root)
