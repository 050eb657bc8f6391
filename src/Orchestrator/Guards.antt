-- ===== src/Orchestrator/Guards.antt =====
-- internal/orchestrator/guardrails.go: the checks before and after each call of a model.
use flux_lens.Base.{
  ℕ, String, Bool, Option, none, some, List, [], ◌∷◌, ◌++◌, ◌==◌, ◌&&◌, ◌||◌, not, any, ltb,
  if◌then◌else◌,
}
use flux_lens.Base.Float.{Float64, lt_f, f_zero, f_one, f_point_six}
use flux_lens.Base.Pattern.{
  CaseTables, Piece, word, maybe, one_of, letters, to_lower, matches, byte_length,
}

pub record Response : Type 0 where
  pub classification : String
  pub suggestion : String
  pub confidence : Float64
  pub requires_review : Bool
  pub reasons : List String

-- A validator returns the text of its error, `none` for nil.
pub record Guardrails : Type 0 where
  pub max_input_bytes : ℕ
  pub min_confidence : Float64
  pub prompt_injection_rgx : List (List Piece)
  pub input_validators : List (String → Option String)
  pub output_validators : List (Response → Option String)

unfoldable pub new_default_guardrails : Guardrails
unfolding f_point_six
new_default_guardrails = record {
  max_input_bytes = 65536;
  min_confidence = f_point_six;
  prompt_injection_rgx =
      (word "ignore " ∷ maybe "all " ∷ word "previous instructions" ∷ [])
      ∷ (word "disregard "
          ∷ maybe "the "
          ∷ one_of ("system" ∷ "developer" ∷ [])
          ∷ word " "
          ∷ one_of ("prompt" ∷ "instructions" ∷ [])
          ∷ [])
      ∷ (word "you are now " ∷ one_of ("" ∷ "a " ∷ "an " ∷ []) ∷ letters ∷ word " assistant" ∷ [])
      ∷ [];
  input_validators = [];
  output_validators = [];
}

-- The loop over the validators: the first error.
unfoldable pub first_error {ℓ} : {A : Type ℓ} → List (A → Option String) → A → Option String
first_error [] x = none
first_error (v ∷ more) x = or_next (v x) (first_error more x)
  where
    or_next : Option String → Option String → Option String
    or_next none next = next
    or_next (some e) next = some e

unfoldable pub validate_input : CaseTables → Guardrails → String → Option String
unfolding first_error
validate_input tables g s =
    let lower = to_lower tables s in
    if ltb g.max_input_bytes (byte_length s)
    then some "orchestrator: input exceeds max bytes"
    else if any (λ rg. matches tables rg lower) g.prompt_injection_rgx
    then some "orchestrator: prompt-injection pattern detected"
    else first_error g.input_validators s

unfoldable pub validate_output : Guardrails → Response → Option String
unfolding first_error
validate_output g r =
    if r.classification == ""
    then some "orchestrator: classification required"
    else if lt_f r.confidence f_zero || lt_f f_one r.confidence
    then some "orchestrator: confidence out of range"
    else if lt_f r.confidence g.min_confidence && not r.requires_review
    then some "orchestrator: low confidence without requires_review"
    else first_error g.output_validators r

unfoldable pub set_min_confidence : Float64 → Guardrails → Guardrails
set_min_confidence c g = record g { min_confidence = c }

unfoldable pub add_input_validator : (String → Option String) → Guardrails → Guardrails
add_input_validator v g = record g { input_validators = g.input_validators ++ v ∷ [] }

unfoldable pub add_output_validator : (Response → Option String) → Guardrails → Guardrails
add_output_validator v g = record g { output_validators = g.output_validators ++ v ∷ [] }
