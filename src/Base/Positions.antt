-- ===== src/Base/Positions.antt =====
-- Reading and writing lists by position.
use mathlib.Core.List.{reverse, reverse-cons}
use Prim.Native.Nat.{ℕ, zero, suc, ◌-◌, ◌<◌}
use mathlib.Core.Path.{◌≡◌, refl, ap}
use mathlib.Core.Bool.{false, ◌&&◌}
use mathlib.Core.Option.{none, some}
use mathlib.Core.List.{List, [], ◌∷◌, ◌++◌}
use native.Mathlib.Omega.{arith}
use flux_lens.Base.Tests.{if◌then◌else◌, ltb, eqb}
use flux_lens.Base.Lists.{length, get_elem?, set, length-append}

module _ {ℓ} {A : Type ℓ} where
  pub get_elem?_within : (xs : List A) (i : ℕ) → i < length xs → (x : A) × (get_elem? xs i ≡ some x)
  get_elem?_within [] i h = absurd (omega arith)
  get_elem?_within (x ∷ xs) zero h = (x, refl)
  get_elem?_within (x ∷ xs) (suc i) h = get_elem?_within xs i (omega arith)

  pub get_elem?-set :
      (xs : List A) (i j : ℕ) (v : A)
      → get_elem? (set xs i v) j ≡ (if eqb i j && ltb i (length xs) then some v else get_elem? xs j)
  get_elem?-set [] i j v = ground arith
  get_elem?-set (x ∷ xs) zero zero v = ground arith
  get_elem?-set (x ∷ xs) zero (suc j) v = ground arith
  get_elem?-set (x ∷ xs) (suc i) zero v = ground arith
  get_elem?-set (x ∷ xs) (suc i) (suc j) v = ground (arith, get_elem?-set xs i j v)

  pub length-set : (xs : List A) (i : ℕ) (v : A) → length (set xs i v) ≡ length xs
  length-set [] i v = refl
  length-set (x ∷ xs) zero v = refl
  length-set (x ∷ xs) (suc i) v = ap suc (length-set xs i v)

  get_elem?-snoc :
      (xs : List A) (x : A) (k : ℕ)
      → get_elem? (xs ++ x ∷ []) k ≡ (if eqb k (length xs) then some x else get_elem? xs k)
  get_elem?-snoc [] x zero = ground arith
  get_elem?-snoc [] x (suc k) = ground arith
  get_elem?-snoc (y ∷ xs) x zero = ground arith
  get_elem?-snoc (y ∷ xs) x (suc k) = ground (arith, get_elem?-snoc xs x k)

  pub length-reverse : (xs : List A) → length (reverse xs) ≡ length xs
  length-reverse [] = refl
  length-reverse (x ∷ xs) =
      rw reverse-cons (omega (arith, length-append (reverse xs) (x ∷ []), length-reverse xs))

  pub get_elem?_past : (xs : List A) (k : ℕ) → ltb k (length xs) ≡ false → get_elem? xs k ≡ none
  get_elem?_past [] k h = refl
  get_elem?_past (x ∷ xs) zero h = ground arith
  get_elem?_past (x ∷ xs) (suc k) h = get_elem?_past xs k (ground arith)

  get_elem?-cons_pred :
      (x : A) (xs : List A) (k : ℕ) → 0 < k → get_elem? (x ∷ xs) k ≡ get_elem? xs (k - 1)
  get_elem?-cons_pred x xs zero h = absurd (omega arith)
  get_elem?-cons_pred x xs (suc k) h = ap (get_elem? xs) (omega arith)

  -- Reading a reversed list is reading from the other end.
  pub get_elem?-reverse :
      (xs : List A) (k : ℕ)
      → get_elem? (reverse xs) k
        ≡ (if ltb k (length xs) then get_elem? xs (length xs - 1 - k) else none)
  get_elem?-reverse [] k = ground arith
  get_elem?-reverse (x ∷ xs) k = rw reverse-cons (
      ground (
        arith,
        get_elem?-snoc (reverse xs) x k,
        length-reverse xs,
        get_elem?-reverse xs k,
        get_elem?-cons_pred x xs (length xs - k),
      ))

  pub list_ext : (xs ys : List A) → ((k : ℕ) → get_elem? xs k ≡ get_elem? ys k) → xs ≡ ys
  list_ext [] [] h = refl
  list_ext [] (y ∷ ys) h = cc (h 0)
  list_ext (x ∷ xs) [] h = cc (h 0)
  list_ext (x ∷ xs) (y ∷ ys) h = let rest = list_ext xs ys (λ k. h (suc k)) in cc (h 0, rest)
