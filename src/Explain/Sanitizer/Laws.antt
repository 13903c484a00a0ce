-- ===== src/Explain/Sanitizer/Laws.antt =====
-- What a sanitized plan may hold, and that to sanitize it again changes nothing.
use dbprobe.Base.{ltb, String, Option, none, some, Bool, true, false, ◌≡◌, refl}
use dbprobe.Base.GoStrings.{byte_len}
use dbprobe.Base.Outcome.{ok, >>=-eq-ok, fail_if}
use dbprobe.Explain.Sanitizer.{
  max_explain_plan_bytes, safe_plan_string_keys, safe_plan_string_slice_keys, safe_plan_number_keys,
  safe_plan_bool_keys, allows, Json, null, boolean, number, string, array, object, Items, nil, cons,
  Fields, end, field, keep_if, object_or_nil, put_value, put_slice, append_value,
  sanitize_plan_value, sanitize_fields, sanitize_plan_slice, Codec, decoded_object, safe_root,
  encoded, sanitize_mysql_json_plan,
}

abbrev pub HasFields : Fields → Type 0
HasFields end = ⊥
HasFields (field key value fields) = Unit

abbrev pub HasItems : Items → Type 0
HasItems nil = ⊥
HasItems (cons value items) = Unit

-- A value that may be shown under a key: each text, number and Boolean in it stands under a key that
-- allows its kind, texts in a list under a key that allows lists of texts; there is no null, and no
-- empty object or list under a key.
unfoldable mutual
  pub IsClean : String → Json → Type 0
  IsClean key null = ⊥
  IsClean key (boolean b) = allows safe_plan_bool_keys key ≡ true
  IsClean key (number text) = allows safe_plan_number_keys key ≡ true
  IsClean key (string text) = allows safe_plan_string_keys key ≡ true
  IsClean key (array items) = AreClean key items
  IsClean key (object fields) = HasFields fields × HasCleanFields fields

  pub HasCleanFields : Fields → Type 0
  HasCleanFields end = Unit
  HasCleanFields (field key (array items) fields) =
      (HasItems items × AreClean key items) × HasCleanFields fields
  HasCleanFields (field key null fields) = ⊥
  HasCleanFields (field key (boolean b) fields) = IsClean key (boolean b) × HasCleanFields fields
  HasCleanFields (field key (number text) fields) =
      IsClean key (number text) × HasCleanFields fields
  HasCleanFields (field key (string text) fields) =
      IsClean key (string text) × HasCleanFields fields
  HasCleanFields (field key (object inner) fields) =
      IsClean key (object inner) × HasCleanFields fields

  pub AreClean : String → Items → Type 0
  AreClean key nil = Unit
  AreClean key (cons (string text) items) =
      (allows safe_plan_string_slice_keys key ≡ true) × AreClean key items
  AreClean key (cons null items) = ⊥
  AreClean key (cons (boolean b) items) = IsClean key (boolean b) × AreClean key items
  AreClean key (cons (number text) items) = IsClean key (number text) × AreClean key items
  AreClean key (cons (array inner) items) = IsClean key (array inner) × AreClean key items
  AreClean key (cons (object inner) items) = IsClean key (object inner) × AreClean key items

-- what an optional value of a plan is when it is there
abbrev IfAny : (Json → Type 0) → Option Json → Type 0
IfAny P none = Unit
IfAny P (some value) = P value

put_slice-clean :
    (key : String) (items : Items) (fields : Fields)
    → AreClean key items
    → HasCleanFields fields
    → HasCleanFields (put_slice key items fields)
unfolding IsClean
put_slice-clean key nil fields c d = d
put_slice-clean key (cons value items) fields c d = ((tt, c), d)

object_or_nil-IsClean :
    (key : String) (fields : Fields)
    → HasCleanFields fields
    → IfAny (IsClean key) (object_or_nil fields)
unfolding IsClean
object_or_nil-IsClean key end c = tt
object_or_nil-IsClean key (field k v fields) c = (tt, c)

-- the parts of a value that is kept when a test holds
keep_if-field :
    (test : Bool) (key : String) (value : Json) (fields : Fields)
    → (test ≡ true → HasCleanFields (field key value fields))
    → HasCleanFields fields
    → HasCleanFields (put_value key (keep_if test value) fields)
keep_if-field true key value fields h d = h refl
keep_if-field false key value fields h d = d

keep_if-item :
    (test : Bool) (key : String) (value : Json) (items : Items)
    → (test ≡ true → AreClean key (cons value items))
    → AreClean key items
    → AreClean key (append_value (keep_if test value) items)
keep_if-item true key value items h d = h refl
keep_if-item false key value items h d = d

put_object-clean :
    (key : String) (inner fields : Fields)
    → HasCleanFields inner
    → HasCleanFields fields
    → HasCleanFields (put_value key (object_or_nil inner) fields)
unfolding IsClean
put_object-clean key end fields c d = d
put_object-clean key (field k v inner) fields c d = ((tt, c), d)

append_object-clean :
    (key : String) (inner : Fields) (items : Items)
    → HasCleanFields inner
    → AreClean key items
    → AreClean key (append_value (object_or_nil inner) items)
unfolding IsClean
append_object-clean key end items c d = d
append_object-clean key (field k v inner) items c d = ((tt, c), d)

mutual
  unfolding IsClean sanitize_plan_value

  sanitize_fields-clean : (fields : Fields) → HasCleanFields (sanitize_fields fields)
  sanitize_fields-clean end = tt
  sanitize_fields-clean (field key (string text) fields) =
      keep_if-field (allows safe_plan_string_keys key) key (string text) (sanitize_fields fields)
        (λ h. (h, sanitize_fields-clean fields)) (sanitize_fields-clean fields)
  sanitize_fields-clean (field key (array items) fields) =
      put_slice-clean key (sanitize_plan_slice key items) (sanitize_fields fields)
        (sanitize_plan_slice-clean key items) (sanitize_fields-clean fields)
  sanitize_fields-clean (field key (object inner) fields) =
      put_object-clean key (sanitize_fields inner) (sanitize_fields fields)
        (sanitize_fields-clean inner) (sanitize_fields-clean fields)
  sanitize_fields-clean (field key (number text) fields) =
      keep_if-field (allows safe_plan_number_keys key) key (number text) (sanitize_fields fields)
        (λ h. (h, sanitize_fields-clean fields)) (sanitize_fields-clean fields)
  sanitize_fields-clean (field key (boolean b) fields) =
      keep_if-field (allows safe_plan_bool_keys key) key (boolean b) (sanitize_fields fields)
        (λ h. (h, sanitize_fields-clean fields)) (sanitize_fields-clean fields)
  sanitize_fields-clean (field key null fields) = sanitize_fields-clean fields

  sanitize_plan_slice-clean :
      (key : String) (items : Items) → AreClean key (sanitize_plan_slice key items)
  sanitize_plan_slice-clean key nil = tt
  sanitize_plan_slice-clean key (cons (string text) items) =
      keep_if-item (allows safe_plan_string_slice_keys key) key (string text)
        (sanitize_plan_slice key items) (λ h. (h, sanitize_plan_slice-clean key items))
        (sanitize_plan_slice-clean key items)
  sanitize_plan_slice-clean key (cons (array inner) items) =
      (sanitize_plan_slice-clean key inner, sanitize_plan_slice-clean key items)
  sanitize_plan_slice-clean key (cons (object inner) items) =
      append_object-clean key (sanitize_fields inner) (sanitize_plan_slice key items)
        (sanitize_fields-clean inner) (sanitize_plan_slice-clean key items)
  sanitize_plan_slice-clean key (cons (number text) items) =
      keep_if-item (allows safe_plan_number_keys key) key (number text)
        (sanitize_plan_slice key items) (λ h. (h, sanitize_plan_slice-clean key items))
        (sanitize_plan_slice-clean key items)
  sanitize_plan_slice-clean key (cons (boolean b) items) =
      keep_if-item (allows safe_plan_bool_keys key) key (boolean b) (sanitize_plan_slice key items)
        (λ h. (h, sanitize_plan_slice-clean key items)) (sanitize_plan_slice-clean key items)
  sanitize_plan_slice-clean key (cons null items) = sanitize_plan_slice-clean key items

mutual
  unfolding IsClean sanitize_plan_value

  sanitize_fields-fixed :
      (fields : Fields) → HasCleanFields fields → sanitize_fields fields ≡ fields
  sanitize_fields-fixed end c = refl
  sanitize_fields-fixed (field key (string text) fields) c =
      rw (c.0, sanitize_fields-fixed fields c.1) refl
  sanitize_fields-fixed (field key (array nil) fields) c = absurd c.0.0
  sanitize_fields-fixed (field key (array (cons value items)) fields) c =
      rw (sanitize_plan_slice-fixed key (cons value items) c.0.1, sanitize_fields-fixed fields c.1)
        refl
  sanitize_fields-fixed (field key (object end) fields) c = absurd c.0.0
  sanitize_fields-fixed (field key (object (field k v inner)) fields) c =
      rw (sanitize_fields-fixed (field k v inner) c.0.1, sanitize_fields-fixed fields c.1) refl
  sanitize_fields-fixed (field key (number text) fields) c =
      rw (c.0, sanitize_fields-fixed fields c.1) refl
  sanitize_fields-fixed (field key (boolean b) fields) c =
      rw (c.0, sanitize_fields-fixed fields c.1) refl
  sanitize_fields-fixed (field key null fields) c = absurd c

  sanitize_plan_slice-fixed :
      (key : String) (items : Items) → AreClean key items → sanitize_plan_slice key items ≡ items
  sanitize_plan_slice-fixed key nil c = refl
  sanitize_plan_slice-fixed key (cons (string text) items) c =
      rw (c.0, sanitize_plan_slice-fixed key items c.1) refl
  sanitize_plan_slice-fixed key (cons (array inner) items) c =
      rw (sanitize_plan_slice-fixed key inner c.0, sanitize_plan_slice-fixed key items c.1) refl
  sanitize_plan_slice-fixed key (cons (object end) items) c = absurd c.0.0
  sanitize_plan_slice-fixed key (cons (object (field k v inner)) items) c =
      rw (sanitize_fields-fixed (field k v inner) c.0.1, sanitize_plan_slice-fixed key items c.1)
        refl
  sanitize_plan_slice-fixed key (cons (number text) items) c =
      rw (c.0, sanitize_plan_slice-fixed key items c.1) refl
  sanitize_plan_slice-fixed key (cons (boolean b) items) c =
      rw (c.0, sanitize_plan_slice-fixed key items c.1) refl
  sanitize_plan_slice-fixed key (cons null items) c = absurd c

-- A decoded value that passed the checks is an object, and sanitized it is a clean object or nothing.
root-IsClean :
    (value root : Json) (decoded : Option (Json × Bool))
    → decoded_object decoded ≡ ok value
    → safe_root (sanitize_plan_value "" value) ≡ ok root
    → IsClean "" root × (sanitize_plan_value "" root ≡ some root)
unfolding IsClean sanitize_plan_value
root-IsClean value root (some (object fields, true)) h k =
    let e : object fields ≡ value = cc in
    of_object (sanitize_fields fields) (sanitize_fields-clean fields) (rw (← e) at k)
  where
    of_object :
        (kept : Fields)
        → HasCleanFields kept
        → safe_root (object_or_nil kept) ≡ ok root
        → IsClean "" root × (sanitize_plan_value "" root ≡ some root)
    of_object end c q = cc
    of_object (field key v kept) c q =
        let same : object (field key v kept) ≡ root = cc in
        rw (← same) ((tt, c), rw (sanitize_fields-fixed (field key v kept) c) refl)
root-IsClean value root (some (object fields, false)) h k = cc
root-IsClean value root (some (null, ends)) h k = cc
root-IsClean value root (some (boolean b, ends)) h k = cc
root-IsClean value root (some (number text, ends)) h k = cc
root-IsClean value root (some (string text, ends)) h k = cc
root-IsClean value root (some (array items, ends)) h k = cc
root-IsClean value root none h k = cc

encoded-eq-ok : (o : Option String) {text : String} → encoded o ≡ ok text → o ≡ some text
encoded-eq-ok none h = cc
encoded-eq-ok (some t) h = cc

-- A sanitized plan is the JSON of a value that holds nothing but what the lists of keys allow, and
-- that to sanitize again does not change.
pub sanitize_mysql_json_plan-IsClean :
    (codec : Codec) (raw text : String)
    → sanitize_mysql_json_plan codec raw ≡ ok text
    → (root : Json) × IsClean "" root
      × (sanitize_plan_value "" root ≡ some root)
      × (codec.marshal root ≡ some text)
unfolding sanitize_mysql_json_plan
sanitize_mysql_json_plan-IsClean codec raw text h =
    let (_, _, h1) =
      >>=-eq-ok
        (fail_if (ltb max_explain_plan_bytes (byte_len raw))
          "MySQL JSON plan exceeds the maximum size")
        _ h in
    let (value, decoded, h2) = >>=-eq-ok (decoded_object (codec.decode raw)) _ h1 in
    let (root, kept, h3) = >>=-eq-ok (safe_root (sanitize_plan_value "" value)) _ h2 in
    let (clean, fixed) = root-IsClean value root (codec.decode raw) decoded kept in
    (root, clean, fixed, encoded-eq-ok (codec.marshal root) h3)
