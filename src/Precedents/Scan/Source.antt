-- ===== src/Precedents/Scan/Source.antt =====
-- Where the rows that the scan collects come from.
use flux_lens.Base.{
  ℕ, String, ◌≡◌, ◌≢◌, refl, sym, ◌∙◌, ◌⊎◌, inl, inr, true, false, Option, none, some, List, [],
  ◌∷◌, arith, eq_iff, ◌==◌, All, Bool-cases, text_cases, ==-false→ne,
}
use mathlib.Core.Option.{some-injective}
use mathlib.Core.List.{Memᴰ}
use flux_lens.Base.Lists.{All-of_mem, All-append}
use flux_lens.Base.Dict.{find, assign, find-assign}
use flux_lens.AuditLog.Record.{Record}
use flux_lens.Precedents.Decode.{DecisionPayload, ActionPayload, decode_decision, decode_action}
use flux_lens.Precedents.Scan.{
  is_rejected, DecisionRow, ActionRow, is_decision_kind, Scanned, decision_row, action_row,
  add_decision, add_action, scan_record, scan_from, scan,
}

module _ (fold : ℕ → ℕ) (log : List Record) where
  -- A row that was read from a decision of the log which guardrails let pass.
  pub record IsDecision (hash : String) (row : DecisionRow) : Type 0 where
    pub rec : Record
    pub listed : Memᴰ rec log
    pub kind : (rec.kind ≡ "decision") ⊎ (rec.kind ≡ "decision_with_precedents")
    pub payload : DecisionPayload
    pub decoded : decode_decision fold rec.payload ≡ some payload
    pub passed : (payload.guardrails_status ≡ "") ⊎ (payload.guardrails_status ≡ "pass")
    pub hashed : rec.hash ≡ hash
    pub read : row ≡ decision_row rec payload

  -- A row that was read from an operator's action in the log.
  pub record IsAction (row : ActionRow) : Type 0 where
    pub rec : Record
    pub listed : Memᴰ rec log
    pub kind : rec.kind ≡ "operator_action"
    pub payload : ActionPayload
    pub decoded : decode_action fold rec.payload ≡ some payload
    pub named : payload.decision_id ≢ ""
    pub read : row ≡ action_row rec payload

  pub record FromLog (s : Scanned) : Type 0 where
    pub decisions :
        (hash : String) (row : DecisionRow) → find s.decisions hash ≡ some row → IsDecision hash row
    pub actions : All IsAction s.actions

  kind_cases :
      (kind : String)
      → is_decision_kind kind ≡ true
      → (kind ≡ "decision") ⊎ (kind ≡ "decision_with_precedents")
  unfolding is_decision_kind
  kind_cases kind h = ground (arith, eq_iff kind "decision", eq_iff kind "decision_with_precedents")

  passed_cases :
      (p : DecisionPayload)
      → is_rejected p ≡ false
      → (p.guardrails_status ≡ "") ⊎ (p.guardrails_status ≡ "pass")
  unfolding is_rejected
  passed_cases p h =
      ground (arith, eq_iff p.guardrails_status "", eq_iff p.guardrails_status "pass")

  assigned :
      (rec : Record) (p : DecisionPayload) (s : Scanned) (hash : String) (row : DecisionRow)
      → (rec.hash ≡ hash → row ≡ decision_row rec p → IsDecision hash row)
      → FromLog s
      → find (assign s.decisions rec.hash (decision_row rec p)) hash ≡ some row
      → IsDecision hash row
  assigned rec p s hash row here f h =
      let found = sym (find-assign s.decisions rec.hash hash (decision_row rec p)) ∙ h in
      elim (text_cases rec.hash hash) [
        | inl same ↦
            here same
              (sym (some-injective (decision_row rec p) row (rw ((eq_iff _ _).1 same) at found)))
        | inr other ↦ f.decisions hash row (rw other at found)
      ]

  add_decision-FromLog :
      (rec : Record) (o : Option DecisionPayload) (s : Scanned)
      → Memᴰ rec log
      → is_decision_kind rec.kind ≡ true
      → decode_decision fold rec.payload ≡ o
      → FromLog s
      → FromLog (add_decision rec o s)
  unfolding add_decision
  add_decision-FromLog rec none s m k e f = f
  add_decision-FromLog rec (some p) s m k e f = elim (Bool-cases (is_rejected p)) [
    | inl out ↦ rw out f
    | inr in_use ↦ rw in_use (record {
      decisions = λ hash row h.
          assigned rec p s hash row
            (λ same read. record {
              rec = rec;
              listed = m;
              kind = kind_cases rec.kind k;
              payload = p;
              decoded = e;
              passed = passed_cases p in_use;
              hashed = same;
              read = read;
            })
            f h;
      actions = f.actions;
    })
  ]

  add_action-FromLog :
      (rec : Record) (o : Option ActionPayload) (s : Scanned)
      → Memᴰ rec log
      → rec.kind ≡ "operator_action"
      → decode_action fold rec.payload ≡ o
      → FromLog s
      → FromLog (add_action rec o s)
  unfolding add_action
  add_action-FromLog rec none s m k e f = f
  add_action-FromLog rec (some p) s m k e f = elim (Bool-cases (p.decision_id == "")) [
    | inl empty ↦ rw empty f
    | inr named ↦ rw named (record {
      decisions = f.decisions;
      actions = All-append IsAction s.actions (action_row rec p ∷ []) f.actions (
        record {
          rec = rec;
          listed = m;
          kind = k;
          payload = p;
          decoded = e;
          named = ==-false→ne _ _ named;
          read = refl;
        },
        tt,
      );
    })
  ]

  scan_record-FromLog :
      (rec : Record) (s : Scanned) → Memᴰ rec log → FromLog s → FromLog (scan_record fold s rec)
  unfolding scan_record
  scan_record-FromLog rec s m f = elim (Bool-cases (is_decision_kind rec.kind)) [
    | inl decision ↦ rw decision (add_decision-FromLog rec _ s m decision refl f)
    | inr other ↦ rw other (elim (text_cases rec.kind "operator_action") [
      | inl action ↦ rw ((eq_iff _ _).1 action) (add_action-FromLog rec _ s m action refl f)
      | inr neither ↦ rw neither f
    ])
  ]

  scan_from-FromLog :
      (rest : List Record) (s : Scanned)
      → All (λ rec. Memᴰ rec log) rest
      → FromLog s
      → FromLog (scan_from fold s rest)
  unfolding scan_from
  scan_from-FromLog [] s m f = f
  scan_from-FromLog (rec ∷ rest) s m f =
      scan_from-FromLog rest (scan_record fold s rec) m.1 (scan_record-FromLog rec s m.0 f)

  pub scan-FromLog : FromLog (scan fold log)
  unfolding scan find
  scan-FromLog =
      scan_from-FromLog log (record { decisions = []; actions = [] })
        (All-of_mem _ log (λ rec m. m))
        (record { decisions = λ hash row h. absurd (none_some h); actions = tt })
    where
      none_some : {row : DecisionRow} → ◌≡◌ {A = Option DecisionRow} none (some row) → ⊥
      none_some h = cc
