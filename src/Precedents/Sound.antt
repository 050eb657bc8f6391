-- ===== src/Precedents/Sound.antt =====
-- What FindMatches returns: resolutions that stand in the log, for the tenant that was asked for.
use mathlib.Core.Path.{subst}
use mathlib.Core.List.{Permᴰ}
use flux_lens.Base.{
  Bool, ==-false→ne, ◌⊎◌, ℕ, ◌≤◌, String, ◌≡◌, ◌≢◌, refl, sym, ◌∙◌, inl, inr, true, Option, none,
  some, List, [], ◌∷◌, arith, eq_iff, ◌==◌, All, Bool-cases, length, length-take,
}
use flux_lens.Base.Lists.{All-mem, All-of_mem, All-take}
use flux_lens.Base.Sorting.{mem_of_perm, IsSorted, IsStrictOrder}
use flux_lens.Base.Dict.{Dict, find}
use flux_lens.Base.Signed.{ℤ, positive_or}
use flux_lens.Base.Text.{equal_fold, trim_space}
use flux_lens.Base.Text.Trim.{trim_space_idem}
use flux_lens.AuditLog.Record.{Record}
use flux_lens.Precedents.{
  Criteria, Resolved, SortSlice, resolved, newer, matches_criteria, add_match, join, find_matches,
}
use flux_lens.Precedents.Decode.{normalize_tenant}
use flux_lens.Precedents.Scan.{DecisionRow, ActionRow, scan, decision_row}
use flux_lens.Precedents.Scan.Source.{IsDecision, IsAction, scan-FromLog}

-- What the documentation of sort.Slice promises.
pub record IsSortSlice (sort_slice : SortSlice) : Type 0 where
  pub permutes :
      (less : Resolved → Resolved → Bool) (xs : List Resolved) → Permᴰ (sort_slice less xs) xs
  pub orders :
      (less : Resolved → Resolved → Bool) (xs : List Resolved)
      → IsStrictOrder less
      → IsSorted less (sort_slice less xs)

normalize_tenant_idem : (t : String) → normalize_tenant (normalize_tenant t) ≡ normalize_tenant t
unfolding normalize_tenant
normalize_tenant_idem t = elim (Bool-cases (trim_space t == "")) [
  | inl blank ↦ rw blank (unfold trim_space in refl)
  | inr text ↦ rw text (rw (trim_space_idem t, text))
]

normalize_tenant-ne-empty : (t : String) → normalize_tenant t ≢ ""
unfolding normalize_tenant
normalize_tenant-ne-empty t = elim (Bool-cases (trim_space t == "")) [
  | inl blank ↦ rw blank (λ e. ground (arith, eq_iff "default" ""))
  | inr text ↦ rw text (==-false→ne _ _ text)
]

module _ (fold : ℕ → ℕ) (log : List Record) (c : Criteria) where
  -- A resolution that the log records: an operator's action on a decision that guardrails let
  -- pass, for an event that meets every criterion.
  pub record IsPrecedent (r : Resolved) : Type 0 where
    pub decision : DecisionRow
    pub decided : IsDecision fold log r.decision_hash decision
    pub act : ActionRow
    pub acted : IsAction fold log act
    pub refers : act.decision_id ≡ r.decision_hash
    pub same : r ≡ resolved decision act
    pub event_type : equal_fold fold r.event_type c.event_type ≡ true
    pub source_id : r.source_id ≡ c.source_id
    pub severity : equal_fold fold r.severity c.severity ≡ true
    pub tenant : r.tenant ≡ normalize_tenant c.tenant_id

  -- The criteria, once the test has passed.
  record Meets (d : DecisionRow) (tenant : String) : Type 0 where
    event_type : equal_fold fold d.event_type c.event_type ≡ true
    source_id : d.source_id ≡ c.source_id
    severity : equal_fold fold d.severity c.severity ≡ true
    in_tenant : (tenant ≡ "") ⊎ (normalize_tenant d.tenant ≡ tenant)

  matches-Meets :
      (d : DecisionRow) (tenant : String) → matches_criteria fold d c tenant ≡ true → Meets d tenant
  unfolding matches_criteria
  matches-Meets d tenant h = record {
    event_type = ground arith;
    source_id = ground (arith, eq_iff d.source_id c.source_id);
    severity = ground arith;
    in_tenant = ground (arith, eq_iff tenant "", eq_iff (normalize_tenant d.tenant) tenant);
  }

  own_tenant :
      (d : DecisionRow) (hash : String)
      → IsDecision fold log hash d
      → normalize_tenant d.tenant ≡ d.tenant
  own_tenant d hash i = rw i.read (unfold decision_row in normalize_tenant_idem i.payload.tenant)

  own_hash : (d : DecisionRow) (hash : String) → IsDecision fold log hash d → d.hash ≡ hash
  own_hash d hash i = rw i.read (unfold decision_row in i.hashed)

  resolved-IsPrecedent :
      (d : DecisionRow) (act : ActionRow)
      → IsDecision fold log act.decision_id d
      → IsAction fold log act
      → Meets d (normalize_tenant c.tenant_id)
      → IsPrecedent (resolved d act)
  unfolding resolved
  resolved-IsPrecedent d act i a m =
      let hash = own_hash d act.decision_id i in
      record {
        decision = d;
        decided = subst (λ h. IsDecision fold log h d) (sym hash) i;
        act = act;
        acted = a;
        refers = sym hash;
        same = refl;
        event_type = m.event_type;
        source_id = m.source_id;
        severity = m.severity;
        tenant = elim m.in_tenant [
          | inl empty ↦ absurd (normalize_tenant-ne-empty c.tenant_id empty)
          | inr same ↦ sym (own_tenant d act.decision_id i) ∙ same
        ];
      }

  add_match-All :
      (o : Option DecisionRow) (act : ActionRow) (rest : List Resolved)
      → ((d : DecisionRow) → o ≡ some d → IsDecision fold log act.decision_id d)
      → IsAction fold log act
      → All IsPrecedent rest
      → All IsPrecedent (add_match fold c (normalize_tenant c.tenant_id) o act rest)
  unfolding add_match
  add_match-All none act rest i a h = h
  add_match-All (some d) act rest i a h =
      elim (Bool-cases (matches_criteria fold d c (normalize_tenant c.tenant_id))) [
        | inl meets ↦
            rw meets (resolved-IsPrecedent d act (i d refl) a (matches-Meets d _ meets), h)
        | inr fails ↦ rw fails h
      ]

  join-All :
      (decisions : Dict DecisionRow) (acts : List ActionRow)
      → ((hash : String) (d : DecisionRow)
          → find decisions hash ≡ some d
          → IsDecision fold log hash d)
      → All (IsAction fold log) acts
      → All IsPrecedent (join fold decisions c (normalize_tenant c.tenant_id) acts)
  unfolding join
  join-All decisions [] i a = tt
  join-All decisions (act ∷ acts) i a =
      add_match-All (find decisions act.decision_id) act _ (i act.decision_id) a.0
        (join-All decisions acts i a.1)

  module _ (sort_slice : SortSlice) where
    -- If sort.Slice returns an ordered permutation, then whatever FindMatches returns is a resolution
    -- that the log records: it pairs an operator's action with the decision that it names, which guardrails let pass, in the tenant asked for, and the
    -- decision meets the other three criteria.
    pub find_matches-IsPrecedent :
        (max : ℤ)
        → IsSortSlice sort_slice
        → All IsPrecedent (find_matches fold sort_slice log c max)
    unfolding find_matches
    find_matches-IsPrecedent max law =
        let scanned = scan fold log in
        let source = scan-FromLog fold log in
        let found = join fold scanned.decisions c (normalize_tenant c.tenant_id) scanned.actions in
        let good = join-All scanned.decisions scanned.actions source.decisions source.actions in
        All-take IsPrecedent (positive_or max 5) _ (
          All-of_mem IsPrecedent _ (λ r m.
            All-mem IsPrecedent good
              (mem_of_perm (law.permutes (newer scanned.decisions) found) m)))

    -- No more resolutions come back than were asked for, or five where no number was asked for.
    pub length-find_matches :
        (max : ℤ) → length (find_matches fold sort_slice log c max) ≤ positive_or max 5
    unfolding find_matches
    length-find_matches max =
        let scanned = scan fold log in
        let found = join fold scanned.decisions c (normalize_tenant c.tenant_id) scanned.actions in
        let sorted = sort_slice (newer scanned.decisions) found in
        omega (arith, length-take (positive_or max 5) sorted)
