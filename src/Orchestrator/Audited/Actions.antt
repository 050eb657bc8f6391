-- ===== src/Orchestrator/Audited/Actions.antt =====
-- RecordOperatorAction: which actions are recorded, and what the precedents read back.
use flux_lens.Base.{
  ℕ, String, true, ◌≡◌, ◌⊎◌, ◌↔◌, refl, inl, inr, Option, [], ◌∷◌, ◌++◌, arith, eq_iff, Bool-cases,
}
use flux_lens.Base.Json.{Json, encodable}
use flux_lens.AuditLog.Record.{Record, Encoding, Outcome, ok, err}
use flux_lens.AuditLog.Store.{IsLog}
use flux_lens.AuditLog.Chain.{Chain}
use flux_lens.AuditLog.Chain.Invariant.{append_succeeds}
use flux_lens.Orchestrator.{Orchestrator}
use flux_lens.Orchestrator.Guards.{Guardrails}
use flux_lens.Llm.{Provider}
use flux_lens.Orchestrator.Decide.{
  is_action, action_payload, recorded, invalid_action, record_operator_action, recorded_of,
}
use flux_lens.Orchestrator.Audited.Memory.{in_memory}

abbrev pub IsAction : String → Type 0
IsAction action = (action ≡ "accept") ⊎ (action ≡ "override") ⊎ (action ≡ "annotate")

is_action_iff : (action : String) → (is_action action ≡ true) ↔ IsAction action
is_action_iff action =
    ground (arith, eq_iff action "accept", eq_iff action "override", eq_iff action "annotate")

module _ {S : Type 0} (clock : ℕ) (o : Orchestrator S) (log : IsLog o.chain) where
  appended :
      (payload : Json) (s s' : S) (h : String) (result : Outcome Record)
      → (o.chain.append clock "operator_action" payload s).1 ≡ result
      → recorded_of clock o ((o.chain.append clock "operator_action" payload s).0, result)
        ≡ (s', recorded h)
      → (rec : Record) × (o.chain.snapshot s' ≡ o.chain.snapshot s ++ rec ∷ [])
        × (rec.kind ≡ "operator_action")
        × (rec.payload ≡ payload)
        × (rec.hash ≡ h)
  unfolding recorded_of
  appended payload s s' h (err e) run k = cc
  appended payload s s' h (ok rec) run k =
      let state : (o.chain.append clock "operator_action" payload s).0 ≡ s' = ground arith in
      let (kinds, payloads, _, _) = log.describes clock "operator_action" payload s rec run in
      (
        rec,
        rw (← state) (log.grows clock "operator_action" payload s rec run),
        kinds,
        payloads,
        ground arith,
      )

  -- On any store that keeps the log's promises: when RecordOperatorAction returns a hash, the action is one of
  -- the three, and the log gained one record, of the kind "operator_action", with that hash.
  pub record_operator_action-recorded :
      (decision_id operator_id action annotation : String) (s s' : S) (h : String)
      → record_operator_action clock o decision_id operator_id action annotation s
        ≡ (s', recorded h)
      → IsAction action
        × ((rec : Record) × (o.chain.snapshot s' ≡ o.chain.snapshot s ++ rec ∷ [])
            × (rec.kind ≡ "operator_action")
            × (rec.payload ≡ action_payload clock o decision_id operator_id action annotation)
            × (rec.hash ≡ h))
  unfolding record_operator_action
  record_operator_action-recorded decision_id operator_id action annotation s s' h k =
      elim (Bool-cases (is_action action)) [
        | inl known ↦ (
          (is_action_iff action).0 known,
          appended _ s s' h _ refl (rw (known, record_operator_action) at k),
        )
        | inr unknown ↦ ground arith
      ]

module _ (enc : Encoding) (clock : ℕ) (provider : Option Provider) (guardrails : Guardrails)
    (tenant : String) where
  returned :
      (x : Chain × Outcome Record) (c : Chain) (rec : Record)
      → x ≡ (c, ok rec)
      → (s' : Chain) × (h : String) × (recorded_of clock
            (in_memory enc provider guardrails tenant)
            x
          ≡ (s', recorded h))
  unfolding recorded_of
  returned x c rec e = (c, rec.hash, rw e refl)

  -- On the in-memory chain RecordOperatorAction returns a hash exactly for the three actions; for any other text
  -- it returns an error and leaves the chain as it is.
  pub record_operator_action_iff :
      (decision_id operator_id action annotation : String) (s : Chain)
      → (IsAction action
          → (s' : Chain) × (h : String) × (record_operator_action clock
                (in_memory enc provider guardrails tenant)
                decision_id
                operator_id
                action
                annotation
                s
              ≡ (s', recorded h)))
        × (¬ IsAction action
            → record_operator_action clock
                (in_memory enc provider guardrails tenant)
                decision_id
                operator_id
                action
                annotation
                s
              ≡ (s, invalid_action))
  unfolding record_operator_action
  record_operator_action_iff decision_id operator_id action annotation s = (
    λ known.
        let payload =
          action_payload clock (in_memory enc provider guardrails tenant) decision_id operator_id
            action annotation in
        rw ((is_action_iff action).1 known) (
          returned _ _ _ (
            append_succeeds enc clock "operator_action" payload s
              (λ e. ground (arith, eq_iff "operator_action" ""))
              (unfold action_payload encodable in refl))),
    λ other. elim (Bool-cases (is_action action)) [
      | inl known ↦ absurd (other ((is_action_iff action).0 known))
      | inr unknown ↦ rw unknown refl
    ],
  )
