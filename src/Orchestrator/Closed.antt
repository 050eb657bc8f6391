-- ===== src/Orchestrator/Closed.antt =====
-- What Append keeps of the log, the operations of the orchestrator keep.
use flux_lens.Base.{ℕ, String, Option, none, some, List, inl, inr, Bool-cases}
use flux_lens.Base.Signed.{ℤ}
use flux_lens.Base.Json.{Json}
use flux_lens.Base.Pattern.{CaseTables}
use flux_lens.AuditLog.Record.{Encoding, Outcome, ok, err, Record}
use flux_lens.AuditLog.Store.{Store}
use flux_lens.Canonical.{Event, EventError, validate}
use flux_lens.Llm.{Provider, Reply, answered, failed}
use flux_lens.Precedents.{SortSlice, Resolved}
use flux_lens.Orchestrator.{Orchestrator, Decision, Surroundings, audit, response_of}
use flux_lens.Orchestrator.Guards.{Response, validate_output}
use flux_lens.Orchestrator.Decide.{
  decide, decide_with, decide_valid, after_input, after_reply, after_output, wrap,
  record_operator_action, recorded_of, is_action,
}
use flux_lens.Orchestrator.Suggest.{
  suggest_with_precedents, suggest_with, suggest_valid, suggest_input, suggest_reply,
  suggest_output, audit_precedent_rejected, refuse, suggest, wrap_suggestion,
}

-- Appends keep it, whatever they append and whether or not they succeed.
abbrev pub KeptByAppend : {S : Type 0} → Store S → (S → Type 0) → Type 0
KeptByAppend {S} chain Q =
    (now : ℕ) (kind : String) (payload : Json) (l : S) → Q l → Q (chain.append now kind payload l).0

module _ {S : Type 0} (tables : CaseTables) (enc : Encoding) (around : Surroundings S)
    (o : Orchestrator S) (Q : S → Type 0) (kept : KeptByAppend o.chain Q)
    (others : (l : S) → Q l → Q (around.between (around.before l))) where
  audit_keeps :
      (kind : String) (payload : Json) (dec : Decision) (l : S)
      → Q l
      → Q (audit around o.chain kind payload dec l).0
  unfolding audit
  audit_keeps kind payload dec l q = kept around.clock kind payload _ (others l q)

  output_keeps :
      (p : Provider) (e : Event) (hash : String) (resp : Response) (bad : Option String) (l : S)
      → Q l
      → Q (after_output tables enc around o p e hash resp bad l).0
  unfolding after_output
  output_keeps p e hash resp none l q = audit_keeps _ _ _ l q
  output_keeps p e hash resp (some reason) l q = audit_keeps _ _ _ l q

  reply_keeps :
      (p : Provider) (e : Event) (hash : String) (r : Reply) (l : S)
      → Q l
      → Q (after_reply tables enc around o p e hash r l).0
  unfolding after_reply
  reply_keeps p e hash (failed detail) l q = audit_keeps _ _ _ l q
  reply_keeps p e hash (answered r) l q =
      output_keeps p e hash (response_of r) (validate_output o.guardrails (response_of r)) l q

  input_keeps :
      (p : Provider) (e : Event) (ctx instruction : String) (bad : Option String) (l : S)
      → Q l
      → Q (after_input tables enc around o p e ctx instruction bad l).0
  unfolding after_input
  input_keeps p e ctx instruction none l q = reply_keeps p e _ _ l q
  input_keeps p e ctx instruction (some reason) l q = audit_keeps _ _ _ l q

  with_keeps :
      (provider : Option Provider) (invalid : Option EventError) (e : Event) (instruction : String)
      (l : S)
      → Q l
      → Q (decide_with tables enc around o provider invalid e instruction l).0
  unfolding decide_with decide_valid wrap
  with_keeps none invalid e instruction l q = q
  with_keeps (some p) (some reason) e instruction l q = q
  with_keeps (some p) none e instruction l q = input_keeps p e _ instruction _ l q

  pub decide_keeps :
      (e : Event) (instruction : String) (l : S)
      → Q l
      → Q (decide tables enc around o e instruction l).0
  unfolding decide
  decide_keeps e instruction l q = with_keeps o.provider (validate e) e instruction l q

  module _ (sort_slice : SortSlice) where
    rejected_keeps :
        (p : Provider) (e : Event) (hash status reason : String) (resp : Option Response)
        (matched : List Resolved) (l : S)
        → Q l
        → Q
            (audit_precedent_rejected tables enc sort_slice around o p e hash status reason resp
              matched l).0
    unfolding audit_precedent_rejected
    rejected_keeps p e hash status reason resp matched l q = audit_keeps _ _ _ l q

    suggest_output_keeps :
        (p : Provider) (e : Event) (hash : String) (resp : Response) (matched : List Resolved)
        (bad : Option String) (l : S)
        → Q l
        → Q (suggest_output tables enc sort_slice around o p e hash resp matched bad l).0
    unfolding suggest_output refuse suggest
    suggest_output_keeps p e hash resp matched none l q = audit_keeps _ _ _ l q
    suggest_output_keeps p e hash resp matched (some reason) l q =
        rejected_keeps p e hash _ reason (some resp) matched l q

    suggest_reply_keeps :
        (p : Provider) (e : Event) (hash : String) (matched : List Resolved) (r : Reply) (l : S)
        → Q l
        → Q (suggest_reply tables enc sort_slice around o p e hash matched r l).0
    unfolding suggest_reply refuse
    suggest_reply_keeps p e hash matched (failed detail) l q =
        rejected_keeps p e hash _ detail none matched l q
    suggest_reply_keeps p e hash matched (answered r) l q =
        suggest_output_keeps p e hash (response_of r) matched _ l q

    suggest_input_keeps :
        (p : Provider) (e : Event) (ctx instruction : String) (matched : List Resolved)
        (bad : Option String) (l : S)
        → Q l
        → Q (suggest_input tables enc sort_slice around o p e ctx instruction matched bad l).0
    unfolding suggest_input refuse
    suggest_input_keeps p e ctx instruction matched none l q =
        suggest_reply_keeps p e _ matched _ l q
    suggest_input_keeps p e ctx instruction matched (some reason) l q =
        rejected_keeps p e _ _ reason none matched l q

    suggest_with_keeps :
        (provider : Option Provider) (invalid : Option EventError) (e : Event)
        (instruction : String) (max : ℤ) (l : S)
        → Q l
        → Q (suggest_with tables enc sort_slice around o provider invalid e instruction max l).0
    unfolding suggest_with suggest_valid wrap_suggestion
    suggest_with_keeps none invalid e instruction max l q = q
    suggest_with_keeps (some p) (some reason) e instruction max l q = q
    suggest_with_keeps (some p) none e instruction max l q = suggest_input_keeps p e _ _ _ _ l q

    pub suggest_keeps :
        (e : Event) (instruction : String) (max : ℤ) (l : S)
        → Q l
        → Q (suggest_with_precedents tables enc sort_slice around o e instruction max l).0
    unfolding suggest_with_precedents
    suggest_keeps e instruction max l q =
        suggest_with_keeps o.provider (validate e) e instruction max l q

module _ {S : Type 0} (clock : ℕ) (o : Orchestrator S) (Q : S → Type 0)
    (kept : KeptByAppend o.chain Q) where
  recorded_of_keeps : (x : S × Outcome Record) → Q x.0 → Q (recorded_of clock o x).0
  unfolding recorded_of
  recorded_of_keeps (l, ok rec) q = q
  recorded_of_keeps (l, err e) q = q

  pub record_operator_action_keeps :
      (decision_id operator_id action annotation : String) (l : S)
      → Q l
      → Q (record_operator_action clock o decision_id operator_id action annotation l).0
  unfolding record_operator_action
  record_operator_action_keeps decision_id operator_id action annotation l q =
      elim (Bool-cases (is_action action)) [
        | inl known ↦ rw known (recorded_of_keeps _ (kept clock _ _ l q))
        | inr unknown ↦ rw unknown q
      ]
