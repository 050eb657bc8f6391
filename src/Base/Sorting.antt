-- ===== src/Base/Sorting.antt =====
-- sort.SliceStable: a stable sort. Stability and order determine its result, so any stable sort
-- gives the list that insertion gives here.
use Prim.Native.Nat.{ℕ, zero, suc}
use mathlib.Core.Path.{◌≡◌, refl, ap, ◌∙◌}
use mathlib.Core.Bool.{Bool, true, false}
use mathlib.Core.Logic.{inl, inr}
use mathlib.Core.List.{List, [], ◌∷◌, Permᴰ, Memᴰ}
use mathlib.Core.List.Permᴰ
use native.Mathlib.Omega.{arith}
use flux_lens.Base.Tests.{if◌then◌else◌, Bool-cases}
use flux_lens.Base.Lists.{length, All, All-imp, take, All-take, All-mem, All-of_mem}

module _ {ℓ} {A : Type ℓ} (before : A → A → Bool) where
  -- Puts `x` ahead of the first element that need not precede it.
  unfoldable pub place : A → List A → List A
  place x [] = x ∷ []
  place x (y ∷ ys) = if before y x then y ∷ place x ys else x ∷ y ∷ ys

  unfoldable pub sort : List A → List A
  unfolding place
  sort [] = []
  sort (x ∷ xs) = place x (sort xs)

  -- No element stands behind one that it must precede.
  abbrev pub IsSorted : List A → Type 0
  IsSorted [] = Unit
  IsSorted (x ∷ xs) = All (λ y. before y x ≡ false) xs × IsSorted xs

  place-perm : (x : A) (xs : List A) → Permᴰ (place x xs) (x ∷ xs)
  unfolding place
  place-perm x [] = Permᴰ.refl _
  place-perm x (y ∷ ys) = elim (Bool-cases (before y x)) [
    | inl e ↦ rw e (Permᴰ.trans (Permᴰ.cons refl (place-perm x ys)) (Permᴰ.swap refl refl))
    | inr e ↦ rw e (Permᴰ.refl _)
  ]

  pub sort-perm : (xs : List A) → Permᴰ (sort xs) xs
  unfolding sort
  sort-perm [] = Permᴰ.nil
  sort-perm (x ∷ xs) = Permᴰ.trans (place-perm x (sort xs)) (Permᴰ.cons refl (sort-perm xs))

  length-place : (x : A) (xs : List A) → length (place x xs) ≡ suc (length xs)
  unfolding place
  length-place x [] = refl
  length-place x (y ∷ ys) = ground (arith, length-place x ys)

  pub length-sort : (xs : List A) → length (sort xs) ≡ length xs
  unfolding sort
  length-sort [] = refl
  length-sort (x ∷ xs) = length-place x (sort xs) ∙ ap suc (length-sort xs)

  module _ {κ} (P : A → Type κ) where
    All-place : (x : A) (xs : List A) → P x → All P xs → All P (place x xs)
    unfolding place
    All-place x [] h k = (h, tt)
    All-place x (y ∷ ys) h k = ground (arith, All-place x ys h k.1)

    pub All-sort : (xs : List A) → All P xs → All P (sort xs)
    unfolding sort
    All-sort [] h = tt
    All-sort (x ∷ xs) h = All-place x (sort xs) h.0 (All-sort xs h.1)

-- What makes `before` a strict weak order, as sort.Slice asks of its `less`.
pub record IsStrictOrder {ℓ} {A : Type ℓ} (before : A → A → Bool) : Type ℓ where
  pub asymmetric : (a b : A) → before a b ≡ true → before b a ≡ false
  pub transitive : (a b c : A) → before b a ≡ false → before c b ≡ false → before c a ≡ false

module _ {ℓ} {A : Type ℓ} (before : A → A → Bool) (order : IsStrictOrder before) where
  place-IsSorted : (x : A) (xs : List A) → IsSorted before xs → IsSorted before (place before x xs)
  unfolding place
  place-IsSorted x [] h = (tt, tt)
  place-IsSorted x (y ∷ ys) h = elim (Bool-cases (before y x)) [
    | inl e ↦ rw e (
      All-place before (λ z. before z y ≡ false) x ys (order.asymmetric y x e) h.0,
      place-IsSorted x ys h.1,
    )
    | inr e ↦ rw e ((e, All-imp _ _ ys (λ z k. order.transitive x y z e k) h.0), h)
  ]

  pub sort-IsSorted : (xs : List A) → IsSorted before (sort before xs)
  unfolding sort
  sort-IsSorted [] = tt
  sort-IsSorted (x ∷ xs) = place-IsSorted x (sort before xs) (sort-IsSorted xs)

module _ {ℓ} {A : Type ℓ} where
  pub mem_of_perm : {a : A} {xs ys : List A} → Permᴰ xs ys → Memᴰ a xs → Memᴰ a ys
  mem_of_perm Permᴰ.nil m = m
  mem_of_perm (Permᴰ.cons e p) (Memᴰ.head h) = Memᴰ.head (h ∙ e)
  mem_of_perm (Permᴰ.cons e p) (Memᴰ.tail m) = Memᴰ.tail (mem_of_perm p m)
  mem_of_perm (Permᴰ.swap e f) (Memᴰ.head h) = Memᴰ.tail (Memᴰ.head (h ∙ e))
  mem_of_perm (Permᴰ.swap e f) (Memᴰ.tail (Memᴰ.head h)) = Memᴰ.head (h ∙ f)
  mem_of_perm (Permᴰ.swap e f) (Memᴰ.tail (Memᴰ.tail m)) = Memᴰ.tail (Memᴰ.tail m)
  mem_of_perm (Permᴰ.trans p q) m = mem_of_perm q (mem_of_perm p m)

  pub length_of_perm : {xs ys : List A} → Permᴰ xs ys → length xs ≡ length ys
  length_of_perm Permᴰ.nil = refl
  length_of_perm (Permᴰ.cons e p) = ap suc (length_of_perm p)
  length_of_perm (Permᴰ.swap e f) = refl
  length_of_perm (Permᴰ.trans p q) = length_of_perm p ∙ length_of_perm q

module _ {ℓ} {A : Type ℓ} (before : A → A → Bool) where
  pub IsSorted-take : (n : ℕ) (xs : List A) → IsSorted before xs → IsSorted before (take n xs)
  IsSorted-take zero xs h = tt
  IsSorted-take (suc n) [] h = tt
  IsSorted-take (suc n) (x ∷ xs) h = (All-take _ n xs h.0, IsSorted-take n xs h.1)

module _ {ℓ κ} {A : Type ℓ} (P : A → Type κ) where
  pub All-of_perm : {xs ys : List A} → Permᴰ xs ys → All P ys → All P xs
  All-of_perm {xs = xs} p h = All-of_mem P xs (λ a m. All-mem P h (mem_of_perm p m))
