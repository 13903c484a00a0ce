-- ===== src/Explain/Statement/Words.antt =====
-- The words of a text, found by where they stand, against the fields that the code splits it into.
use Prim.Native.Char.{Char}
use dbprobe.Base.{
  String, Bool, true, false, List, [], ◌∷◌, ◌++◌, ◌==◌, ◌≡◌, ◌≢◌, refl, ap, sym, ◌∙◌, if◌then◌else◌,
  arith, Bool-cases, inl, inr, eq_iff,
}
use dbprobe.Base.GoStrings.{is_space}
use dbprobe.Base.Lists.{append-nil}
use dbprobe.Explain.Statement.{add_field, scan_fields, fields}

-- one text after the other
abbrev pub join : String → String → String
join String.[] t = t
join (String.◌∷◌ c s) t = String.◌∷◌ c (join s t)

abbrev pub no_space : String → Bool
no_space String.[] = true
no_space (String.◌∷◌ c s) = if is_space c then false else no_space s

-- A text in which the words stand one after the other, from its start, with nothing but space between
-- them and space after the last.
pub data Spread : List String → String → Type 0 where
  ends : {s : String} → Spread [] s
  skips :
      {words : List String} {c : Char} {s : String}
      → is_space c ≡ true
      → Spread words s
      → Spread words (String.◌∷◌ c s)
  reads :
      {words : List String} {word : String} {c : Char} {s : String}
      → word ≢ ""
      → no_space word ≡ true
      → is_space c ≡ true
      → Spread words (String.◌∷◌ c s)
      → Spread (word ∷ words) (join word (String.◌∷◌ c s))

-- The words stand somewhere in the text, after its start or a space.
pub record HasWords (s : String) (words : List String) : Type 0 where
  pub before : String
  pub space : Char
  pub is_space_before : is_space space ≡ true
  pub rest : String
  pub at : join " " (join s " ") ≡ join before (String.◌∷◌ space rest)
  pub spread : Spread words rest

add_field-append :
    (word : String) (later more : List String)
    → add_field word (later ++ more) ≡ add_field word later ++ more
unfolding add_field
add_field-append word later more = elim (Bool-cases (word == "")) [
  | inl e ↦ rw e refl
  | inr e ↦ rw e refl
]

-- A space in a text splits its fields.
scan_fields-space :
    (a : String) (c : Char) (s : String)
    → is_space c ≡ true
    → scan_fields (join a (String.◌∷◌ c s)) ≡ ((scan_fields a).0, (scan_fields a).1 ++ fields s)
unfolding scan_fields fields
scan_fields-space String.[] c s h = rw h refl
scan_fields-space (String.◌∷◌ d a) c s h = elim (Bool-cases (is_space d)) [
  | inl e ↦ rw (e, scan_fields-space a c s h, add_field-append) refl
  | inr e ↦ rw (e, scan_fields-space a c s h) refl
]

fields-space :
    (a : String) (c : Char) (s : String)
    → is_space c ≡ true
    → fields (join a (String.◌∷◌ c s)) ≡ fields a ++ fields s
unfolding fields
fields-space a c s h =
    rw (scan_fields-space a c s h) (add_field-append (scan_fields a).0 (scan_fields a).1 (fields s))

scan_fields-word : (word : String) → no_space word ≡ true → scan_fields word ≡ (word, [])
unfolding scan_fields
scan_fields-word String.[] n = refl
scan_fields-word (String.◌∷◌ c s) n = elim (Bool-cases (is_space c)) [
  | inl e ↦ absurd (let no = rw e at n in cc)
  | inr e ↦ rw (e, scan_fields-word s (ground arith)) refl
]

fields-word : (word : String) → word ≢ "" → no_space word ≡ true → fields word ≡ word ∷ []
unfolding fields add_field
fields-word word h n =
    let given : (word == "") ≡ false = ground (arith, eq_iff word "") in
    rw (scan_fields-word word n, given) refl

space_first : (c : Char) (s : String) → is_space c ≡ true → fields (String.◌∷◌ c s) ≡ fields s
unfolding fields scan_fields add_field
space_first c s h = rw h refl

-- The words that stand one after the other are the first fields.
Spread-fields :
    {words : List String} {s : String}
    → Spread words s
    → (rest : List String) × (fields s ≡ words ++ rest)
Spread-fields {s = s} ends = (fields s, refl)
Spread-fields (skips {c = c} {s = s} h t) =
    let (rest, e) = Spread-fields t in (rest, space_first c s h ∙ e)
Spread-fields (reads {word = word} {c = c} {s = s} h n sp t) =
    let (rest, e) = Spread-fields t in
    (
      rest,
      fields-space word c s sp
          ∙ ap (λ l. l ++ fields s) (fields-word word h n)
          ∙ ap (◌∷◌ word) (sym (space_first c s sp) ∙ e),
    )

fields-padded : (s : String) → fields (join " " (join s " ")) ≡ fields s
unfolding fields add_field scan_fields
fields-padded s = fields-space s " " "" refl ∙ append-nil (fields s)

-- The fields of a text in which words stand are some fields, the words, and other fields.
pub HasWords-fields :
    {words : List String} {s : String}
    → HasWords s words
    → (before : List String) × (after : List String) × (fields s ≡ before ++ (words ++ after))
HasWords-fields {words} {s} h =
    let (after, e) = Spread-fields h.spread in
    (
      fields h.before,
      after,
      sym (fields-padded s)
          ∙ ap fields h.at
          ∙ fields-space h.before h.space h.rest h.is_space_before
          ∙ ap (λ l. fields h.before ++ l) e,
    )
