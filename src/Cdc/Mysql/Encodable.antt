-- ===== src/Cdc/Mysql/Encodable.antt =====
-- The payloads of row changes have a JSON form where the rows' values have one.
use flux_lens.Base.{
  String, true, false, ◌≡◌, refl, inl, inr, Option, none, some, List, [], ◌∷◌, ◌++◌, Bool-cases,
  All,
}
use flux_lens.Base.Json.{Json, str, nat, obj, encodable, encodable_items, encodable_fields, object}
use flux_lens.Cdc.Mysql.{
  Value, BytesText, RowChange, Binlog, change_payload, json_value, json_values, row_values,
  optional_field,
}

-- What a row holds has a JSON form.
abbrev pub IsRow : BytesText → List Value → Type 0
IsRow codec row = All (λ v. encodable (json_value codec v) ≡ true) row

-- A field that is present has a JSON form.
abbrev pub Fine : Option Json → Type 0
Fine none = Unit
Fine (some v) = encodable v ≡ true

encodable-append :
    (xs ys : List (String × Json))
    → encodable_fields (object xs) ≡ true
    → encodable_fields (object ys) ≡ true
    → encodable_fields (object (xs ++ ys)) ≡ true
unfolding encodable_fields
encodable-append [] ys h k = k
encodable-append (x ∷ xs) ys h k = elim (Bool-cases (encodable x.1)) [
  | inl fine ↦ rw fine (encodable-append xs ys (rw (fine, encodable_fields) at h) k)
  | inr bad ↦ absurd (clash (rw (bad, encodable_fields) at h))
]
  where
    clash : false ≡ true → ⊥
    clash h = cc

encodable-optional :
    (name : String) (o : Option Json)
    → Fine o
    → encodable_fields (object (optional_field name o)) ≡ true
unfolding encodable_fields optional_field
encodable-optional name none h = refl
encodable-optional name (some v) h = rw h refl

encodable-values :
    (codec : BytesText) (row : List Value)
    → IsRow codec row
    → encodable_items (json_values codec row) ≡ true
unfolding encodable_items json_values
encodable-values codec [] h = refl
encodable-values codec (v ∷ row) h = rw (h.0) (encodable-values codec row h.1)

pub row_values-Fine :
    (codec : BytesText) (row : List Value) → IsRow codec row → Fine (row_values codec row)
unfolding row_values encodable
row_values-Fine codec [] h = tt
row_values-Fine codec (v ∷ row) h = encodable-values codec (v ∷ row) h

abbrev pub IsFine : RowChange → Type 0
IsFine change = Fine change.before × Fine change.after × Fine change.row

pub encodable-change_payload :
    (log : Binlog) (action : String) (change : RowChange)
    → IsFine change
    → encodable (change_payload log action change) ≡ true
unfolding change_payload encodable encodable_fields
encodable-change_payload log action change (b, a, r) =
    let first = ("action", str action) ∷ optional_field "after" change.after in
    let second = optional_field "before" change.before in
    let third =
      (
        "binlog",
        obj (object (("binlog_file", str log.file) ∷ ("binlog_position", nat log.position) ∷ [])),
      )
      ∷ ("database", str log.schema)
      ∷ optional_field "row" change.row in
    encodable-append (first ++ second ++ third) (("table", str log.table) ∷ [])
      (encodable-append (first ++ second) third
        (encodable-append first second (encodable-optional "after" change.after a)
          (encodable-optional "before" change.before b))
        (encodable-optional "row" change.row r))
      refl
