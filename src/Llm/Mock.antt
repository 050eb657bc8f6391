-- ===== src/Llm/Mock.antt =====
-- internal/llm/mock.go: the provider that cycles through canned responses. The counters are atomic
-- uint64; a call is one step on the state.
pub mod Cycle
use Prim.Native.Nat.{◌*◌, ◌^◌}
use flux_lens.Base.{
  ℕ, ◌+◌, ◌-◌, ◌%◌, String, Bool, true, false, Option, none, some, List, [], ◌∷◌, length, ltb, eqb,
  get_elem?, if◌then◌else◌,
}
use flux_lens.Base.Signed.{pos}
use flux_lens.Base.Float.{Float64, fin}
use flux_lens.Llm.{Provider, DecisionResponse, Reply, answered, failed}

-- The error of a failed call is always the one that NewMockProvider makes, so it is no field here.
pub record MockProvider : Type 0 where
  pub model_id : String
  pub responses : List DecisionResponse
  pub fail_next : Bool
  pub calls : ℕ
  pub cursor : ℕ

-- The double nearest to 0.85
point_eight_five : Float64
point_eight_five = fin (pos (7656119366529843 * 2 ^ 1021))

unfoldable pub default_response : DecisionResponse
unfolding point_eight_five
default_response = record {
  classification = "routine";
  suggestion = "no operator action required";
  confidence = point_eight_five;
  requires_review = false;
  reasons = [];
}

unfoldable pub or_default : List DecisionResponse → List DecisionResponse
or_default [] = default_response ∷ []
or_default (r ∷ more) = r ∷ more

unfoldable pub new_mock_provider : String → List DecisionResponse → MockProvider
unfolding or_default
new_mock_provider model_id responses = record {
  model_id = model_id;
  responses = or_default responses;
  fail_next = false;
  calls = 0;
  cursor = 0;
}

-- What a call returns, or the panic of an index that is out of range.
pub data Called : Type 0 where
  returned : Reply → Called
  panicked : Called

-- int(n) % len for a uint64 n: the conversion is negative from 2^63 on, and so is the remainder
-- then, unless it is 0.
unfoldable pub position : ℕ → ℕ → Option ℕ
position n len =
    if ltb n (2 ^ 63) then some (n % len) else if eqb ((2 ^ 64 - n) % len) 0 then some 0 else none

found : Option DecisionResponse → Called
found none = panicked
found (some r) = returned (answered r)

reply_at : List DecisionResponse → Option ℕ → Called
unfolding found
reply_at responses none = panicked
reply_at responses (some i) = found (get_elem? responses i)

unfoldable pub fail_next_call : MockProvider → MockProvider
fail_next_call m = record m { fail_next = true }

-- Decide; the request is not looked at.
unfoldable pub mock_decide : MockProvider → MockProvider × Called
unfolding reply_at position
mock_decide m =
    let counted = record m { calls = (m.calls + 1) % 2 ^ 64 } in
    if m.fail_next
    then (record counted { fail_next = false }, returned (failed "mock: injected failure"))
    else (
      record counted { cursor = (m.cursor + 1) % 2 ^ 64 },
      reply_at m.responses (position m.cursor (length m.responses)),
    )

reply_or_panic : Called → Reply
reply_or_panic (returned r) = r
reply_or_panic panicked = failed "panic"

-- The provider that a mock is, in one state.
unfoldable pub mock_provider : MockProvider → Provider
unfolding reply_or_panic mock_decide
mock_provider m = record {
  name = "mock";
  model_id = m.model_id;
  decide = λ request. reply_or_panic (mock_decide m).1;
}
