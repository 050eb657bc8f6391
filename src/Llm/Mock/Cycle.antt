-- ===== src/Llm/Mock/Cycle.antt =====
-- What a sequence of calls of the mock provider returns.
use Prim.Native.Nat.{◌^◌}
use native.Mathlib.Nat.{mod-lt}
use flux_lens.Base.{
  ℕ, zero, suc, ◌+◌, ◌%◌, ◌<◌, String, false, ◌≡◌, refl, some, List, [], ◌∷◌, arith, length,
  get_elem?, lt→ltb,
}
use flux_lens.Base.Positions.{get_elem?_within}
use flux_lens.Llm.{DecisionResponse, answered}
use flux_lens.Llm.Mock.{
  MockProvider, returned, position, found, reply_at, mock_decide, new_mock_provider, or_default,
}

-- The state after n calls.
unfoldable pub after_calls : ℕ → MockProvider → MockProvider
after_calls zero m = m
after_calls (suc n) m = after_calls n (mock_decide m).0

length-or_default : (rs : List DecisionResponse) → 0 < length (or_default rs)
unfolding or_default
length-or_default [] = omega arith
length-or_default (r ∷ rs) = omega arith

record IsReady (m : MockProvider) (rs : List DecisionResponse) (c : ℕ) : Type 0 where
  kept : m.responses ≡ rs
  no_failure : m.fail_next ≡ false
  at_cursor : m.cursor ≡ c

mock_decide-IsReady :
    (m : MockProvider) (rs : List DecisionResponse) (c : ℕ)
    → c < 2 ^ 63
    → IsReady m rs c
    → IsReady (mock_decide m).0 rs (suc c)
unfolding mock_decide
mock_decide-IsReady m rs c l r =
    rw r.no_failure
      (record { kept = r.kept; no_failure = refl; at_cursor = omega (arith, r.at_cursor, l) })

after_calls-IsReady :
    (n c : ℕ) (m : MockProvider) (rs : List DecisionResponse)
    → c + n < 2 ^ 63
    → IsReady m rs c
    → IsReady (after_calls n m) rs (c + n)
unfolding after_calls
after_calls-IsReady zero c m rs l r = record {
  kept = r.kept;
  no_failure = r.no_failure;
  at_cursor = omega (arith, r.at_cursor);
}
after_calls-IsReady (suc n) c m rs l r =
    let later =
      after_calls-IsReady n (suc c) (mock_decide m).0 rs (omega (arith, l))
        (mock_decide-IsReady m rs c (omega (arith, l)) r) in
    record {
      kept = later.kept;
      no_failure = later.no_failure;
      at_cursor = omega (arith, later.at_cursor);
    }

mock_decide_ready :
    (m : MockProvider) (rs : List DecisionResponse) (c : ℕ)
    → 0 < length rs
    → c < 2 ^ 63
    → IsReady m rs c
    → (r : DecisionResponse) × (get_elem? rs (c % length rs) ≡ some r)
      × ((mock_decide m).1 ≡ returned (answered r))
unfolding mock_decide reply_at found position
mock_decide_ready m rs c some_reply l r =
    let (x, there) = get_elem?_within rs (c % length rs) (mod-lt c some_reply) in
    (x, there, rw (r.no_failure, r.kept, r.at_cursor, lt→ltb c (2 ^ 63) l, there) refl)

-- As long as no failure is asked for, the calls of a fresh mock provider cycle through its responses:
-- the call after n others, for n below 2^63, returns the response at n modulo their number, and
-- there is one.
pub mock_decide_cycles :
    (model_id : String) (responses : List DecisionResponse) (n : ℕ)
    → n < 2 ^ 63
    → let rs = or_default responses in
      (r : DecisionResponse) × (get_elem? rs (n % length rs) ≡ some r)
      × ((mock_decide (after_calls n (new_mock_provider model_id responses))).1
          ≡ returned (answered r))
unfolding new_mock_provider
mock_decide_cycles model_id responses n l =
    let r =
      after_calls-IsReady n 0 (new_mock_provider model_id responses) (or_default responses)
        (omega (arith, l)) (record { kept = refl; no_failure = refl; at_cursor = refl }) in
    mock_decide_ready _ (or_default responses) n (length-or_default responses) l
      (record { kept = r.kept; no_failure = r.no_failure; at_cursor = omega (arith, r.at_cursor) })
