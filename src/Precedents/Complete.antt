-- ===== src/Precedents/Complete.antt =====
-- The order of what FindMatches returns, and that nothing is left out.
use mathlib.Core.Path.{subst}
use mathlib.Core.List.{Memᴰ}
use mathlib.Core.List.Permᴰ
use flux_lens.Base.{
  ℕ, ◌<◌, String, ◌≡◌, refl, sym, inl, inr, true, Option, none, some, List, [], ◌∷◌, arith,
  Bool-cases, length,
}
use flux_lens.Base.Lists.{take_whole}
use flux_lens.Base.Sorting.{mem_of_perm, IsSorted, IsSorted-take, IsStrictOrder}
use flux_lens.Base.Dict.{Dict, find}
use flux_lens.Base.Signed.{ℤ, positive_or}
use flux_lens.AuditLog.Record.{Record}
use flux_lens.Precedents.{
  Criteria, Resolved, SortSlice, resolved, newer, matches_criteria, add_match, join, find_matches,
}
use flux_lens.Precedents.Decode.{normalize_tenant}
use flux_lens.Precedents.Scan.{DecisionRow, ActionRow, scan}
use flux_lens.Precedents.Sound.{IsSortSlice}

newer-IsStrictOrder : (decisions : Dict DecisionRow) → IsStrictOrder (newer decisions)
unfolding newer
newer-IsStrictOrder decisions = record {
  asymmetric = λ a b h. ground arith;
  transitive = λ a b c h k. ground arith;
}

module _ (fold : ℕ → ℕ) (log : List Record) (c : Criteria) where
  mem_of_add_match :
      (o : Option DecisionRow) (d : DecisionRow) (tenant : String) (act : ActionRow)
      (rest : List Resolved)
      → o ≡ some d
      → matches_criteria fold d c tenant ≡ true
      → Memᴰ (resolved d act) (add_match fold c tenant o act rest)
  unfolding add_match
  mem_of_add_match o d tenant act rest e h = rw (e, add_match, h) (Memᴰ.head refl)

  mem_later :
      (o : Option DecisionRow) (tenant : String) (act : ActionRow) (r : Resolved)
      (rest : List Resolved)
      → Memᴰ r rest
      → Memᴰ r (add_match fold c tenant o act rest)
  unfolding add_match
  mem_later none tenant act r rest m = m
  mem_later (some d) tenant act r rest m = elim (Bool-cases (matches_criteria fold d c tenant)) [
    | inl meets ↦ rw meets (Memᴰ.tail m)
    | inr fails ↦ rw fails m
  ]

  mem-join :
      (decisions : Dict DecisionRow) (tenant : String) (acts : List ActionRow) (d : DecisionRow)
      {act : ActionRow}
      → Memᴰ act acts
      → find decisions act.decision_id ≡ some d
      → matches_criteria fold d c tenant ≡ true
      → Memᴰ (resolved d act) (join fold decisions c tenant acts)
  unfolding join
  mem-join decisions tenant [] d m f h = elim m [ ]
  mem-join decisions tenant (x ∷ acts) d {act = act} (Memᴰ.head e) f h =
      let f' = subst (λ (a : ActionRow). find decisions a.decision_id ≡ some d) e f in
      subst (λ a. Memᴰ (resolved d a) (join fold decisions c tenant (x ∷ acts))) (sym e)
        (mem_of_add_match (find decisions x.decision_id) d tenant x _ f' h)
  mem-join decisions tenant (x ∷ acts) d {act = act} (Memᴰ.tail m) f h =
      mem_later (find decisions x.decision_id) tenant x _ _ (mem-join decisions tenant acts d m f h)

  module _ (sort_slice : SortSlice) where
    -- If sort.Slice returns an ordered permutation, then the resolutions of FindMatches come newest
    -- decision first, by the sequence number of the decision's record.
    pub find_matches-IsSorted :
        (max : ℤ)
        → IsSortSlice sort_slice
        → IsSorted (newer (scan fold log).decisions) (find_matches fold sort_slice log c max)
    unfolding find_matches
    find_matches-IsSorted max law =
        let decisions = (scan fold log).decisions in
        IsSorted-take (newer decisions) (positive_or max 5) _
          (law.orders (newer decisions) _ (newer-IsStrictOrder decisions))

    -- If sort.Slice returns an ordered permutation and FindMatches returns fewer resolutions than were
    -- asked for, then none was left out: every collected action on a collected decision that meets the criteria is among them.
    pub find_matches_complete :
        (max : ℤ) (act : ActionRow) (d : DecisionRow)
        → IsSortSlice sort_slice
        → Memᴰ act (scan fold log).actions
        → find (scan fold log).decisions act.decision_id ≡ some d
        → matches_criteria fold d c (normalize_tenant c.tenant_id) ≡ true
        → length (find_matches fold sort_slice log c max) < positive_or max 5
        → Memᴰ (resolved d act) (find_matches fold sort_slice log c max)
    unfolding find_matches
    find_matches_complete max act d law m f h l =
        let scanned = scan fold log in
        let tenant = normalize_tenant c.tenant_id in
        let found = join fold scanned.decisions c tenant scanned.actions in
        let perm = law.permutes (newer scanned.decisions) found in
        rw (take_whole (positive_or max 5) (sort_slice (newer scanned.decisions) found) l) (
          mem_of_perm (Permᴰ.symm perm) (mem-join scanned.decisions tenant scanned.actions d m f h))
