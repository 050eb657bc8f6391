-- ===== src/AuditLog/Postgres/Tests/Fixture.antt =====
-- A table as a list of rows with their tenants, its primary key the sequence number.
use mathlib.Core.List.{Memᴰ}
use flux_lens.Base.{
  String, Bool, true, false, ◌≡◌, ◌⊎◌, refl, none, some, List, [], ◌∷◌, ◌++◌, ◌==◌, arith, length,
  any, eqb, eq_refl, Bool-cases, inl, inr, ap, sym, if◌then◌else◌,
}
use flux_lens.AuditLog.Record.{Record}
use flux_lens.AuditLog.Postgres.{Head, no_rows, newest, Rows, all_rows, Database}
use flux_lens.AuditLog.Postgres.Law.{IsDatabase}
use flux_lens.AuditLog.Postgres.Limits.{HasSharedKey}

abbrev pub Table : Type 0
Table = List (String × Record)

abbrev pub rows_for : String → Table → List Record
rows_for t [] = []
rows_for t ((u, r) ∷ more) = let rest = rows_for t more in if u == t then r ∷ rest else rest

-- The last row of the tenant
abbrev head_from : Head → List Record → Head
head_from h [] = h
head_from h (r ∷ rs) = head_from (newest r.sequence r.hash) rs

-- A database whose rows read back as `back` of what was written.
abbrev pub table : (Record → Record) → Database Table
table back = record {
  insert = λ t r d.
      if any (λ (x : String × Record). eqb x.1.sequence r.sequence) d
      then (d, some "duplicate key value violates unique constraint")
      else (d ++ (t, back r) ∷ [], none);
  select_head = λ t d. head_from no_rows (rows_for t d);
  select_rows = λ t d. all_rows (rows_for t d);
  select_count = λ t d. some (length (rows_for t d));
}

rows_for-append :
    (t : String) (d : Table) (r : Record) → rows_for t (d ++ (t, r) ∷ []) ≡ rows_for t d ++ r ∷ []
rows_for-append t [] r = rw (eq_refl t) refl
rows_for-append t ((u, x) ∷ d) r = elim (Bool-cases (u == t)) [
  | inl same ↦ rw same (ap (λ xs. x ∷ xs) (rows_for-append t d r))
  | inr other ↦ rw other (rows_for-append t d r)
]

module _ (back : Record → Record) where
  taken : Record → Table → Bool
  taken r d = any (λ (x : String × Record). eqb x.1.sequence r.sequence) d

  pub table-IsDatabase : IsDatabase (table back) rows_for back
  unfolding taken
  table-IsDatabase = record {
    inserts = λ t r d low none_left. inserted t r d none_left;
    rejects = λ t r d text h. rejected t r d text h;
    selects = λ t d rows h. ap rows_in (sym h);
  }
    where
      rows_in : Rows → List Record
      rows_in (all_rows rows) = rows
      rows_in _ = []

      inserted :
          (t : String) (r : Record) (d : Table)
          → ((table back).insert t r d).1 ≡ none
          → rows_for t ((table back).insert t r d).0 ≡ rows_for t d ++ back r ∷ []
      inserted t r d h =
          elim (Bool-cases (any (λ (x : String × Record). eqb x.1.sequence r.sequence) d)) [
            | inl there ↦ absurd (clash (rw there at h))
            | inr free ↦ rw free (rows_for-append t d (back r))
          ]
        where
          clash : {text : String} → some text ≡ none → ⊥
          clash h = cc

      rejected :
          (t : String) (r : Record) (d : Table) (text : String)
          → ((table back).insert t r d).1 ≡ some text
          → rows_for t ((table back).insert t r d).0 ≡ rows_for t d
      rejected t r d text h =
          elim (Bool-cases (any (λ (x : String × Record). eqb x.1.sequence r.sequence) d)) [
            | inl there ↦ rw there refl
            | inr free ↦ absurd (clash (rw free at h))
          ]
        where
          clash : none ≡ some text → ⊥
          clash h = cc

  pub table-HasSharedKey : HasSharedKey (table back) rows_for
  table-HasSharedKey t u r x d there same =
      rw (found u r x d there same) ("duplicate key value violates unique constraint", refl)
    where
      found :
          (u : String) (r x : Record) (d : Table)
          → Memᴰ x (rows_for u d)
          → x.sequence ≡ r.sequence
          → any (λ (y : String × Record). eqb y.1.sequence r.sequence) d ≡ true
      found u r x [] there same = elim there [ ]
      found u r x ((v, y) ∷ d) there same = elim (Bool-cases (eqb y.sequence r.sequence)) [
        | inl equal ↦ rw equal refl
        | inr other ↦ rw other (elim (split (v == u) there) [
          | inl here ↦ absurd (differ (rw here at same) other)
          | inr later ↦ found u r x d later same
        ])
      ]
        where
          split :
              (b : Bool)
              → Memᴰ x (if b then y ∷ rows_for u d else rows_for u d)
              → (x ≡ y) ⊎ Memᴰ x (rows_for u d)
          split true (Memᴰ.head e) = inl e
          split true (Memᴰ.tail t) = inr t
          split false t = inr t

          differ : y.sequence ≡ r.sequence → eqb y.sequence r.sequence ≡ false → ⊥
          differ e h = ground arith
