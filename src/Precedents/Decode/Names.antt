-- ===== src/Precedents/Decode/Names.antt =====
-- On objects whose keys are lower-case names, decoding does not depend on the table for case folding.
use Prim.Native.Char.{code}
use flux_lens.Base.{
  ℕ, String, Bool, true, false, ◌≡◌, refl, inl, inr, Option, none, ◌&&◌, leb, Option-cases,
}
use flux_lens.Base.Text.{equal_fold}
use flux_lens.Base.Json.{Json, null, bool, nat, float, str, arr, obj, Fields, end, field}
use flux_lens.Precedents.Decode.{
  text_value, Answer, answer_or_new, text_field, answer_value, answer_field, decode_decision_fields,
  decode_decision, decode_action_fields, decode_action,
}

-- A lower-case letter or an underscore.
abbrev pub is_name_code : ℕ → Bool
is_name_code c = leb 95 c && leb c 122

abbrev pub is_name : String → Bool
is_name String.[] = true
is_name (String.◌∷◌ c s) = is_name_code (code c) && is_name s

abbrev pub have_names : Fields → Bool
have_names end = true
have_names (field k v more) = is_name k && have_names more

abbrev pub inner_names : Json → Bool
inner_names (obj fs) = have_names fs
inner_names _ = true

abbrev pub all_names : Fields → Bool
all_names end = true
all_names (field k v more) = is_name k && (inner_names v && all_names more)

abbrev pub is_named : Json → Bool
is_named (obj fs) = all_names fs
is_named _ = true

-- Lower-case letters and the underscore stand for their classes.
abbrev pub KeepsNames : (ℕ → ℕ) → Type 0
KeepsNames fold = (c : ℕ) → is_name_code c ≡ true → fold c ≡ c

abbrev pub exact : ℕ → ℕ
exact c = c

and_left : (a b : Bool) → (a && b) ≡ true → a ≡ true
and_left true b h = refl
and_left false b h = h

and_right : (a b : Bool) → (a && b) ≡ true → b ≡ true
and_right true b h = h
and_right false b h = cc

shallow_names : (fs : Fields) → all_names fs ≡ true → have_names fs ≡ true
shallow_names end h = refl
shallow_names (field k v more) h =
    rw
      (
        and_left (is_name k) _ h,
        shallow_names more (and_right (inner_names v) _ (and_right (is_name k) _ h)),
      )
      refl

module _ (fold : ℕ → ℕ) (keeps : KeepsNames fold) where
  equal_fold-exact :
      (s t : String)
      → is_name s ≡ true
      → is_name t ≡ true
      → equal_fold fold s t ≡ equal_fold exact s t
  unfolding equal_fold
  equal_fold-exact String.[] String.[] h k = refl
  equal_fold-exact String.[] (String.◌∷◌ d t) h k = refl
  equal_fold-exact (String.◌∷◌ c s) String.[] h k = refl
  equal_fold-exact (String.◌∷◌ c s) (String.◌∷◌ d t) h k =
      rw
        (
          keeps (code c) (and_left (is_name_code (code c)) _ h),
          keeps (code d) (and_left (is_name_code (code d)) _ k),
          equal_fold-exact s t (and_right (is_name_code (code c)) _ h)
              (and_right (is_name_code (code d)) _ k),
        )
        refl

  text_field-exact :
      (name old : String) (fs : Fields)
      → is_name name ≡ true
      → have_names fs ≡ true
      → text_field fold name old fs ≡ text_field exact name old fs
  unfolding text_field
  text_field-exact name old end n h = refl
  text_field-exact name old (field k v more) n h =
      let same = equal_fold-exact k name (and_left (is_name k) _ h) n in
      let rest = and_right (is_name k) _ h in
      elim (Option-cases (text_value old v)) [
        | inl bad ↦ rw (same, bad, text_field-exact name old more n rest) refl
        | inr (new, good) ↦
            rw
              (
                same,
                good,
                text_field-exact name new more n rest,
                text_field-exact name old more n rest,
              )
              refl
      ]

  answer_value-exact :
      (old : Option Answer) (v : Json)
      → inner_names v ≡ true
      → answer_value fold old v ≡ answer_value exact old v
  unfolding answer_value
  answer_value-exact old (obj fs) h =
      rw
        (
          text_field-exact "classification" (answer_or_new old).classification fs refl h,
          text_field-exact "suggestion" (answer_or_new old).suggestion fs refl h,
        )
        refl
  answer_value-exact old null h = refl
  answer_value-exact old (bool b) h = refl
  answer_value-exact old (nat n) h = refl
  answer_value-exact old (float f) h = refl
  answer_value-exact old (str s) h = refl
  answer_value-exact old (arr xs) h = refl

  answer_field-exact :
      (old : Option Answer) (fs : Fields)
      → all_names fs ≡ true
      → answer_field fold old fs ≡ answer_field exact old fs
  unfolding answer_field
  answer_field-exact old end h = refl
  answer_field-exact old (field k v more) h =
      let same = equal_fold-exact k "response" (and_left (is_name k) _ h) refl in
      let inner = and_right (is_name k) _ h in
      let rest = and_right (inner_names v) _ inner in
      let value = answer_value-exact old v (and_left (inner_names v) _ inner) in
      elim (Option-cases (answer_value exact old v)) [
        | inl bad ↦ rw (same, value, bad, answer_field-exact old more rest) refl
        | inr (new, good) ↦
            rw
              (
                same,
                value,
                good,
                answer_field-exact new more rest,
                answer_field-exact old more rest,
              )
              refl
      ]

  decode_decision_fields-exact :
      (fs : Fields)
      → all_names fs ≡ true
      → decode_decision fold (obj fs) ≡ decode_decision exact (obj fs)
  unfolding decode_decision decode_decision_fields
  decode_decision_fields-exact fs h =
      let n = shallow_names fs h in
      rw
        (
          text_field-exact "event_id" "" fs refl n,
          text_field-exact "event_type" "" fs refl n,
          text_field-exact "source_id" "" fs refl n,
          text_field-exact "severity" "" fs refl n,
          text_field-exact "tenant" "" fs refl n,
          text_field-exact "guardrails_status" "" fs refl n,
          answer_field-exact none fs h,
        )
        refl

  decode_action_fields-exact :
      (fs : Fields)
      → all_names fs ≡ true
      → decode_action fold (obj fs) ≡ decode_action exact (obj fs)
  unfolding decode_action decode_action_fields
  decode_action_fields-exact fs h =
      let n = shallow_names fs h in
      rw
        (
          text_field-exact "decision_id" "" fs refl n,
          text_field-exact "action" "" fs refl n,
          text_field-exact "annotation" "" fs refl n,
        )
        refl

  pub decode_decision-exact :
      (v : Json) → is_named v ≡ true → decode_decision fold v ≡ decode_decision exact v
  unfolding decode_decision decode_decision_fields text_field answer_field
  decode_decision-exact (obj fs) h = decode_decision_fields-exact fs h
  decode_decision-exact null h = refl
  decode_decision-exact (bool b) h = refl
  decode_decision-exact (nat n) h = refl
  decode_decision-exact (float f) h = refl
  decode_decision-exact (str s) h = refl
  decode_decision-exact (arr xs) h = refl

  pub decode_action-exact :
      (v : Json) → is_named v ≡ true → decode_action fold v ≡ decode_action exact v
  unfolding decode_action decode_action_fields text_field
  decode_action-exact (obj fs) h = decode_action_fields-exact fs h
  decode_action-exact null h = refl
  decode_action-exact (bool b) h = refl
  decode_action-exact (nat n) h = refl
  decode_action-exact (float f) h = refl
  decode_action-exact (str s) h = refl
  decode_action-exact (arr xs) h = refl
