-- ===== src/Base/Lists.antt =====
-- Lists measured by native numbers, and what holds of every element.
use Prim.Native.Nat.{ℕ, zero, suc, ◌+◌, ◌-◌, ◌≤◌, ◌<◌, min}
use mathlib.Core.Path.{◌≡◌, refl, ap, sym, subst, ◌∙◌}
use mathlib.Core.Logic.{inl, inr}
use mathlib.Core.Bool.{Bool, true, false}
use mathlib.Core.List.{List, [], ◌∷◌, ◌++◌, Memᴰ}
use mathlib.Core.Option.{Option, none, some}
use native.Mathlib.Omega.{arith}
use flux_lens.Base.Tests.{if◌then◌else◌, Bool-cases}

module _ {ℓ} {A : Type ℓ} where
  abbrev pub length : List A → ℕ
  length [] = 0
  length (x ∷ xs) = suc (length xs)

  abbrev pub take : ℕ → List A → List A
  take zero xs = []
  take (suc n) [] = []
  take (suc n) (x ∷ xs) = x ∷ take n xs

  abbrev pub drop : ℕ → List A → List A
  drop zero xs = xs
  drop (suc n) [] = []
  drop (suc n) (x ∷ xs) = drop n xs

  abbrev pub get_elem? : List A → ℕ → Option A
  get_elem? [] i = none
  get_elem? (x ∷ xs) zero = some x
  get_elem? (x ∷ xs) (suc i) = get_elem? xs i

  -- A write out of bounds changes nothing.
  abbrev pub set : List A → ℕ → A → List A
  set [] i v = []
  set (x ∷ xs) zero v = v ∷ xs
  set (x ∷ xs) (suc i) v = x ∷ set xs i v

  -- The elements that pass a test, as the loops of the source collect them.
  abbrev pub keep_if : (A → Bool) → List A → List A
  keep_if p [] = []
  keep_if p (x ∷ xs) = if p x then x ∷ keep_if p xs else keep_if p xs

  abbrev pub any : (A → Bool) → List A → Bool
  any p [] = false
  any p (x ∷ xs) = if p x then true else any p xs

abbrev pub All {ℓ κ} : {A : Type ℓ} → (A → Type κ) → List A → Type κ
All P [] = Unit
All P (x ∷ xs) = P x × All P xs

module _ {ℓ} {A : Type ℓ} where
  pub length-append : (xs ys : List A) → length (xs ++ ys) ≡ length xs + length ys
  length-append [] ys = omega arith
  length-append (x ∷ xs) ys = omega (arith, length-append xs ys)

  pub length-take : (n : ℕ) (xs : List A) → length (take n xs) ≡ min n (length xs)
  length-take zero xs = omega arith
  length-take (suc n) [] = omega arith
  length-take (suc n) (x ∷ xs) = omega (arith, length-take n xs)

  pub length-drop : (n : ℕ) (xs : List A) → length (drop n xs) ≡ length xs - n
  length-drop zero xs = omega arith
  length-drop (suc n) [] = omega arith
  length-drop (suc n) (x ∷ xs) = omega (arith, length-drop n xs)

  pub drop_of_append : (xs ys : List A) → drop (length xs) (xs ++ ys) ≡ ys
  drop_of_append [] ys = refl
  drop_of_append (x ∷ xs) ys = drop_of_append xs ys

  drop-nil : (n : ℕ) → drop {A = A} n [] ≡ []
  drop-nil zero = refl
  drop-nil (suc n) = refl

  pub drop-drop : (m n : ℕ) (xs : List A) → drop m (drop n xs) ≡ drop (n + m) xs
  drop-drop m zero xs = ap (λ k. drop k xs) (omega arith)
  drop-drop m (suc n) [] = rw (drop-nil m) (sym (drop-nil (suc n + m)))
  drop-drop m (suc n) (x ∷ xs) =
      drop-drop m n xs ∙ ap (λ k. drop k (x ∷ xs)) {x = suc (n + m)} {y = suc n + m} (omega arith)

  pub drop-append : (n : ℕ) (xs ys : List A) → n ≤ length xs → drop n (xs ++ ys) ≡ drop n xs ++ ys
  drop-append zero xs ys h = refl
  drop-append (suc n) [] ys h = absurd (omega arith)
  drop-append (suc n) (x ∷ xs) ys h = drop-append n xs ys (omega arith)

  pub length-keep_if : (p : A → Bool) (xs : List A) → length (keep_if p xs) ≤ length xs
  length-keep_if p [] = omega arith
  length-keep_if p (x ∷ xs) = ground (arith, length-keep_if p xs)

module _ {ℓ κ} {A : Type ℓ} (P : A → Type κ) where
  pub All-append : (xs ys : List A) → All P xs → All P ys → All P (xs ++ ys)
  All-append [] ys h k = k
  All-append (x ∷ xs) ys h k = (h.0, All-append xs ys h.1 k)

  pub All-take : (n : ℕ) (xs : List A) → All P xs → All P (take n xs)
  All-take zero xs h = tt
  All-take (suc n) [] h = tt
  All-take (suc n) (x ∷ xs) h = (h.0, All-take n xs h.1)

  pub All-drop : (n : ℕ) (xs : List A) → All P xs → All P (drop n xs)
  All-drop zero xs h = h
  All-drop (suc n) [] h = tt
  All-drop (suc n) (x ∷ xs) h = All-drop n xs h.1

  pub All-mem : {a : A} {xs : List A} → All P xs → Memᴰ a xs → P a
  All-mem h (Memᴰ.head e) = subst P (sym e) h.0
  All-mem h (Memᴰ.tail m) = All-mem h.1 m

  pub All-of_mem : (xs : List A) → ((a : A) → Memᴰ a xs → P a) → All P xs
  All-of_mem [] h = tt
  All-of_mem (x ∷ xs) h = (h x (Memᴰ.head refl), All-of_mem xs (λ a m. h a (Memᴰ.tail m)))

  pub All-set : (i : ℕ) (v : A) (xs : List A) → P v → All P xs → All P (set xs i v)
  All-set i v [] h k = tt
  All-set zero v (x ∷ xs) h k = (h, k.1)
  All-set (suc i) v (x ∷ xs) h k = (k.0, All-set i v xs h k.1)

  pub All-if : (b : Bool) (xs ys : List A) → All P xs → All P ys → All P (if b then xs else ys)
  All-if true xs ys h k = h
  All-if false xs ys h k = k

  pub All-keep_if : (p : A → Bool) (xs : List A) → All P xs → All P (keep_if p xs)
  All-keep_if p [] h = tt
  All-keep_if p (x ∷ xs) h = ground (arith, All-keep_if p xs h.1)

module _ {ℓ κ ι} {A : Type ℓ} where
  pub All-imp :
      (P : A → Type κ) (Q : A → Type ι) (xs : List A) → ((a : A) → P a → Q a) → All P xs → All Q xs
  All-imp P Q [] f h = tt
  All-imp P Q (x ∷ xs) f h = (f x h.0, All-imp P Q xs f h.1)

module _ {ℓ} {A : Type ℓ} where
  pub All-keep_if_test : (p : A → Bool) (xs : List A) → All (λ x. p x ≡ true) (keep_if p xs)
  All-keep_if_test p [] = tt
  All-keep_if_test p (x ∷ xs) = ground (arith, All-keep_if_test p xs)

  pub mem_of_keep_if : (p : A → Bool) {a : A} (xs : List A) → Memᴰ a (keep_if p xs) → Memᴰ a xs
  mem_of_keep_if p [] m = elim m [ ]
  mem_of_keep_if p (x ∷ xs) m = elim (Bool-cases (p x)) [
    | inl e ↦ kept (rw e at m) (mem_of_keep_if p xs)
    | inr e ↦ Memᴰ.tail (mem_of_keep_if p xs (rw e at m))
  ]
    where
      kept :
          {a : A}
          → Memᴰ a (x ∷ keep_if p xs)
          → (Memᴰ a (keep_if p xs) → Memᴰ a xs)
          → Memᴰ a (x ∷ xs)
      kept (Memᴰ.head e) f = Memᴰ.head e
      kept (Memᴰ.tail t) f = Memᴰ.tail (f t)

  pub mem-keep_if :
      (p : A → Bool) {a : A} (xs : List A) → Memᴰ a xs → p a ≡ true → Memᴰ a (keep_if p xs)
  mem-keep_if p [] m h = elim m [ ]
  mem-keep_if p (x ∷ xs) (Memᴰ.head e) h =
      let passes = subst (λ b. p b ≡ true) e h in rw passes (Memᴰ.head e)
  mem-keep_if p (x ∷ xs) (Memᴰ.tail m) h = elim (Bool-cases (p x)) [
    | inl e ↦ rw e (Memᴰ.tail (mem-keep_if p xs m h))
    | inr e ↦ rw e (mem-keep_if p xs m h)
  ]

  pub mem_of_take : (n : ℕ) {a : A} (xs : List A) → Memᴰ a (take n xs) → Memᴰ a xs
  mem_of_take zero xs m = elim m [ ]
  mem_of_take (suc n) [] m = elim m [ ]
  mem_of_take (suc n) (x ∷ xs) (Memᴰ.head e) = Memᴰ.head e
  mem_of_take (suc n) (x ∷ xs) (Memᴰ.tail m) = Memᴰ.tail (mem_of_take n xs m)

  pub take_whole : (n : ℕ) (xs : List A) → length (take n xs) < n → take n xs ≡ xs
  take_whole zero xs h = absurd (omega arith)
  take_whole (suc n) [] h = refl
  take_whole (suc n) (x ∷ xs) h = ap (λ ys. x ∷ ys) (take_whole n xs (omega arith))
