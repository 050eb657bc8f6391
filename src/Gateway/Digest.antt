-- ===== src/Gateway/Digest.antt =====
-- The digests that the gateway serves.
use mathlib.Core.List.{Memᴰ}
use Prim.Native.Nat.{◌≤◌, ◌<◌}
use flux_lens.Base.{
  ℕ, zero, suc, String, Bool, true, false, ◌&&◌, ◌||◌, ◌≡◌, refl, ap, ◌∙◌, Option, none, some, List,
  inl, inr, Bool-cases, arith, tests, eq_iff, All, length, if◌then◌else◌, eqb, ltb,
}
use flux_lens.Base.Lists.{All-imp}
use flux_lens.Base.Signed.{ℤ, pos, negsuc}
use flux_lens.Base.Float.{Float64, is_finite}
use flux_lens.Base.Json.{Json, encodable}
use flux_lens.Base.Sorting.{IsSorted}
use flux_lens.AuditLog.Chain.{Chain, append}
use flux_lens.AuditLog.Chain.Adds.{Adds, append-Adds, append_skips}
use flux_lens.Canonical.{Event}
use flux_lens.Curation as Curation
use flux_lens.Curation.{Result, Chosen, events, unknown, choose, select, finish, with_size}
use flux_lens.Curation.Strategies.{later, filter_suppressed}
use flux_lens.Curation.Strategies.Members.{IsFair}
use flux_lens.Curation.Guarantees.{select-All, length-select}
use flux_lens.Llm.{Provider}
use flux_lens.Gateway.{Runtime, Readings, Gateway, Server, new_gateway}
use flux_lens.Gateway.Bodies.{DigestQuery, reply, digest}
use flux_lens.Gateway.Handlers.{
  digest_strategy, size_or_default, diversity_or_default, digest_payload, digest_request, nat_of,
  digest_served, handle_digest,
}
use flux_lens.Gateway.Ingest.{verify_and_observe-SameLog, broadcast-SameLog}
use flux_lens.Gateway.Sound.{in_memory}

-- The strategy is one of the six.
digest_strategy_lem : (n : ℤ) → (m : ℕ) × (digest_strategy n ≡ pos m) × (1 ≤ m) × (m ≤ 6)
unfolding digest_strategy
digest_strategy_lem (negsuc n) = (4, refl, omega arith, omega arith)
digest_strategy_lem (pos n) = elim (Bool-cases (ltb n 1 || ltb 6 n)) [
  | inl out ↦ (4, rw out refl, omega arith, omega arith)
  | inr within ↦ (n, rw within refl, grind tests, grind tests)
]

size_positive : (k : Option ℤ) → 0 < size_or_default k
unfolding size_or_default
size_positive none = omega arith
size_positive (some (pos zero)) = omega arith
size_positive (some (pos (suc k))) = omega arith
size_positive (some (negsuc k)) = omega arith

module _ {S : Type 0} (rt : Runtime) (gate : Gateway S) (at : Readings) where
  choose_known :
      (m : ℕ) (req : Curation.Request) (k : ℕ) (given : List Event)
      → 1 ≤ m
      → m ≤ 6
      → (chosen : List Event) × (choose rt.world rt.arith64 (pos m) req k given ≡ events chosen)
  unfolding choose
  choose_known zero req k given low high = absurd (omega arith)
  choose_known (suc zero) req k given low high = (_, refl)
  choose_known (suc (suc zero)) req k given low high = (_, refl)
  choose_known (suc (suc (suc zero))) req k given low high = (_, refl)
  choose_known (suc (suc (suc (suc zero)))) req k given low high = (_, refl)
  choose_known (suc (suc (suc (suc (suc zero))))) req k given low high = (_, refl)
  choose_known (suc (suc (suc (suc (suc (suc zero)))))) req k given low high = (_, refl)
  choose_known (suc (suc (suc (suc (suc (suc (suc m))))))) req k given low high =
      absurd (omega arith)

  finish_succeeds :
      (req : Curation.Request) (now removed : ℕ) (o : Chosen) (chosen : List Event)
      → o ≡ events chosen
      → (r : Result) × (finish rt.world rt.arith64 req now removed o ≡ Curation.ok r)
  unfolding finish
  finish_succeeds req now removed o chosen e = rw e (_, refl)

  with_size_succeeds :
      (req : Curation.Request) (clock m n : ℕ) (k : ℤ)
      → req.strategy ≡ pos m
      → k ≡ pos n
      → 1 ≤ m
      → m ≤ 6
      → (r : Result) × (with_size rt.world rt.arith64 req clock k ≡ Curation.ok r)
  unfolding with_size
  with_size_succeeds req clock m n k strategy size low high =
      let (given, removed) = filter_suppressed req.events req.suppression_set in
      let (chosen, known) = choose_known m req n given low high in
      rw size (
        finish_succeeds req (if eqb req.now 0 then clock else req.now) removed
          (choose rt.world rt.arith64 req.strategy req n given) chosen
          (ap (λ z. choose rt.world rt.arith64 z req n given) strategy ∙ known))

  -- Select succeeds on the request of every digest.
  digest_selects :
      (q : DigestQuery) (s : Server S)
      → (r : Result) × (select rt.world rt.arith64 (digest_request rt gate at q s) (at.clock 1)
          ≡ Curation.ok r)
  unfolding select digest_request
  digest_selects q s =
      let (m, strategy, low, high) = digest_strategy_lem q.strategy in
      with_size_succeeds (digest_request rt gate at q s) (at.clock 1) m (size_or_default q.k) _
        strategy refl low high

  served_lem :
      (req : Curation.Request) (o : Curation.Outcome) (r : Result) (s : Server S)
      → o ≡ Curation.ok r
      → (digest_served rt gate at req o s).1 ≡ reply 200 (digest r)
  unfolding digest_served
  served_lem req o r s e = rw e refl

  -- If ranging over a map and shuffling keep the elements: whatever the query, handleDigest answers
  -- 200 with a digest of the recent events only, newest first, of at most as many events as the query
  -- asks for, or 20 where it does not ask for a positive number.
  pub handle_digest-serves :
      (q : DigestQuery) (s : Server S)
      → IsFair rt.world
      → (r : Result) × ((handle_digest rt gate at q s).1 ≡ reply 200 (digest r))
        × All (λ e. Memᴰ e s.recent) r.selected
        × IsSorted later r.selected
        × (length r.selected ≤ size_or_default q.k)
  unfolding handle_digest digest_request
  handle_digest-serves q s fair =
      let req = digest_request rt gate at q s in
      let (r, run) = digest_selects q s in
      let (from, sorted) = select-All rt.world rt.arith64 fair req (at.clock 1) r run in
      (
        r,
        served_lem req _ r s run,
        All-imp _ (λ e. Memᴰ e s.recent) r.selected (λ e h. h.0) from,
        sorted,
        length-select rt.world rt.arith64 fair req (at.clock 1) (size_or_default q.k) r refl
            (size_positive q.k) run,
      )

module _ (rt : Runtime) (mock : Provider) (max : ℕ) (wedge : String) (hub : Bool)
    (at : Readings) where
  abbrev gate : Gateway Chain
  gate = in_memory rt mock max wedge hub

  abbrev pub payload : DigestQuery → Result → Json
  payload q r =
      digest_payload (diversity_or_default q.diversity) (size_or_default q.k) (length r.selected)
        (nat_of (digest_strategy q.strategy))

  encodable-payload :
      (d : Float64) (k n strategy : ℕ) → encodable (digest_payload d k n strategy) ≡ is_finite d
  unfolding digest_payload encodable
  encodable-payload d k n strategy = and_true (is_finite d)
    where
      and_true : (b : Bool) → (b && true) ≡ b
      and_true true = refl
      and_true false = refl

  -- What handleDigest does to the log is what Append does.
  served_log :
      (req : Curation.Request) (r : Result) (s : Server Chain)
      → (digest_served rt gate at req (Curation.ok r) s).0.log
        ≡ (append rt.enc
            (at.clock 2)
            "digest_selection"
            (digest_payload req.diversity_percent
              (nat_of req.k)
              (length r.selected)
              (nat_of req.strategy))
            s.log).0
  unfolding digest_served new_gateway
  served_log req r s =
      (broadcast-SameLog rt gate at hub _ _).log ∙ (verify_and_observe-SameLog rt gate at _).log

  -- On the in-memory chain, handleDigest serves a
  -- digest, and if the diversity of the query is finite then the log has one more record, of the kind
  -- "digest_selection"; but for a diversity that is not a number or infinite, which ParseFloat admits, the
  -- log stays as it is.
  pub handle_digest_logs :
      (q : DigestQuery) (s : Server Chain)
      → (r : Result) × ((handle_digest rt gate at q s).1 ≡ reply 200 (digest r))
        × ((is_finite (diversity_or_default q.diversity) ≡ true)
            → Adds rt.enc
                (at.clock 2)
                "digest_selection"
                (payload q r)
                s.log
                (handle_digest rt gate at q s).0.log)
        × ((is_finite (diversity_or_default q.diversity) ≡ false)
            → (handle_digest rt gate at q s).0.log ≡ s.log)
  unfolding handle_digest digest_request
  handle_digest_logs q s =
      let req = digest_request rt gate at q s in
      let (r, run) = digest_selects rt gate at q s in
      let same = ap (λ o. (digest_served rt gate at req o s).0.log) run ∙ served_log req r s in
      let encodes =
        encodable-payload (diversity_or_default q.diversity) (size_or_default q.k)
          (length r.selected) (nat_of (digest_strategy q.strategy)) in
      (
        r,
        served_lem rt gate at req _ r s run,
        λ finite. rw same (
            append-Adds rt.enc (at.clock 2) "digest_selection" (payload q r) s.log
              (λ k. ground (arith, eq_iff "digest_selection" "")) (encodes ∙ finite)),
        λ infinite.
            same
            ∙ append_skips rt.enc (at.clock 2) "digest_selection" (payload q r) s.log
                (encodes ∙ infinite),
      )
