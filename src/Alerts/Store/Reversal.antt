-- ===== src/Alerts/Store/Reversal.antt =====
-- The swap loop of Snapshot reverses its copy of the buffer.
use mathlib.Core.List.{reverse}
use flux_lens.Base.{
  ℕ, zero, suc, ◌+◌, ◌-◌, ◌<◌, ◌≡◌, refl, ◌∙◌, sym, ap, Option, none, some, List, [], ◌∷◌, arith,
  ltb, leb, eqb, ◌&&◌, if◌then◌else◌, length, get_elem?, set, Bool-cases, inl, inr,
}
use flux_lens.Base.Positions.{
  get_elem?_within, get_elem?_past, get_elem?-set, length-set, get_elem?-reverse, list_ext,
}
use flux_lens.Alerts.Store.{Store, exchange, swap_loop, snapshot}

-- Where the element at `k` of the result comes from, when what lies between `i` and `j` is reversed.
abbrev mirror : ℕ → ℕ → ℕ → ℕ
mirror i j k = if leb i k && leb k j then i + j - k else k

mirror_step :
    (i j k : ℕ)
    → i < j
    → (if eqb (mirror (suc i) (j - 1) k) i
        then j
        else if eqb (mirror (suc i) (j - 1) k) j
        then i
        else mirror (suc i) (j - 1) k)
      ≡ mirror i j k
mirror_step i j k h = ground arith

module _ {A : Type 0} where
  length-exchange :
      (x y : Option A) (i j : ℕ) (out : List A) → length (exchange x y i j out) ≡ length out
  unfolding exchange
  length-exchange (some x) (some y) i j out = length-set (set out i y) j x ∙ length-set out i y
  length-exchange (some x) none i j out = refl
  length-exchange none y i j out = refl

  get_elem?-exchange :
      (i j m : ℕ) (out : List A)
      → i < j
      → j < length out
      → get_elem? (exchange (get_elem? out i) (get_elem? out j) i j out) m
        ≡ get_elem? out (if eqb m i then j else if eqb m j then i else m)
  unfolding exchange
  get_elem?-exchange i j m out h k =
      let (x, at_i) = get_elem?_within out i (omega arith) in
      let (y, at_j) = get_elem?_within out j k in
      ground (
        arith,
        at_i,
        at_j,
        get_elem?-set (set out i y) j m x,
        get_elem?-set out i m y,
        length-set out i y,
      )

  swap_loop-mirror :
      (fuel i j k : ℕ) (out : List A)
      → j < length out
      → j < i + fuel
      → get_elem? (swap_loop fuel i j out) k ≡ get_elem? out (mirror i j k)
  unfolding swap_loop
  swap_loop-mirror zero i j k out h f = ap (get_elem? out) {x = k} {y = mirror i j k} (ground arith)
  swap_loop-mirror (suc fuel) i j k out h f = elim (Bool-cases (ltb i j)) [
    | inl more ↦
        let swapped = exchange (get_elem? out i) (get_elem? out j) i j out in
        let kept = length-exchange (get_elem? out i) (get_elem? out j) i j out in
        rw more (
          swap_loop-mirror fuel (suc i) (j - 1) k swapped (ground (arith, kept)) (ground arith)
          ∙ get_elem?-exchange i j (mirror (suc i) (j - 1) k) out (ground arith) h
          ∙ ap (get_elem? out) (mirror_step i j k (ground arith)))
    | inr done ↦ rw done (ap (get_elem? out) {x = k} {y = mirror i j k} (ground arith))
  ]

  mirror_end :
      (out : List A) (k : ℕ)
      → 0 < length out
      → get_elem? out (mirror 0 (length out - 1) k)
        ≡ (if ltb k (length out) then get_elem? out (length out - 1 - k) else none)
  mirror_end out k h = elim (Bool-cases (ltb k (length out))) [
    | inl within ↦ rw within (
        ap (get_elem? out) {x = mirror 0 (length out - 1) k} {y = length out - 1 - k}
          (ground arith))
    | inr past ↦ rw past (
        ap (get_elem? out) {x = mirror 0 (length out - 1) k} {y = k} (ground arith)
        ∙ get_elem?_past out k past)
  ]

  reversed :
      (out : List A) (k : ℕ)
      → get_elem? (swap_loop (length out) 0 (length out - 1) out) k
        ≡ (if ltb k (length out) then get_elem? out (length out - 1 - k) else none)
  reversed [] k = unfold swap_loop in ground arith
  reversed (x ∷ xs) k =
      swap_loop-mirror (suc (length xs)) 0 (suc (length xs) - 1) k (x ∷ xs) (omega arith)
        (omega arith)
      ∙ mirror_end (x ∷ xs) k (omega arith)

-- The snapshot is the buffer from the newest alert to the oldest.
pub snapshot-eq-reverse : (s : Store) → snapshot s ≡ reverse s.buf
unfolding snapshot
snapshot-eq-reverse s = list_ext _ _ (λ k. reversed s.buf k ∙ sym (get_elem?-reverse s.buf k))
