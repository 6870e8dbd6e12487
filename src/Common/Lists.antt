-- ===== src/Common/Lists.antt =====
-- List helpers over the native numbers and Boolean tests, under the library's names.
use Prim.Native.Nat.{ℕ, suc, ◌+◌}
use mathlib.Core.Path.{◌≡◌, refl}
use mathlib.Core.Bool.{Bool, true, false, ◌||◌}
use mathlib.Core.Option.{Option, none, some}
use mathlib.Core.List.{List, [], ◌∷◌, ◌++◌}
use native.Mathlib.Omega.{arith}
use mathlib.Core.Logic.{inl, inr}
use refundagent.Common.Tests.{Bool-cases, ◌==◌, if◌then◌else◌}

-- `x in xs` for identifiers.
abbrev pub contains : List ℕ → ℕ → Bool
contains [] a = false
contains (x ∷ xs) a = x == a || contains xs a

-- No identifier stands twice.
abbrev pub IsDistinct : List ℕ → Type 0
IsDistinct [] = Unit
IsDistinct (k ∷ ks) = (contains ks k ≡ false) × IsDistinct ks

module _ {ℓ} {A : Type ℓ} where
  abbrev pub length : List A → ℕ
  length [] = 0
  length (x ∷ xs) = suc (length xs)

  pub length-append : (xs ys : List A) → length (xs ++ ys) ≡ length xs + length ys
  length-append [] ys = omega arith
  length-append (x ∷ xs) ys = omega (arith, length-append xs ys)

  -- A comprehension's `if`.
  abbrev pub filter : (A → Bool) → List A → List A
  filter p [] = []
  filter p (x ∷ xs) = let rest = filter p xs in if p x then x ∷ rest else rest

  abbrev pub find? : (A → Bool) → List A → Option A
  find? p [] = none
  find? p (x ∷ xs) = if p x then some x else find? p xs

  abbrev pub any : (A → Bool) → List A → Bool
  any p [] = false
  any p (x ∷ xs) = p x || any p xs

  -- Python's stable `sorted` with an order on keys, as an insertion from the right.
  abbrev pub insert_by : (A → A → Bool) → A → List A → List A
  insert_by le x [] = x ∷ []
  insert_by le x (y ∷ ys) = if le x y then x ∷ y ∷ ys else y ∷ insert_by le x ys

  abbrev pub sort_by : (A → A → Bool) → List A → List A
  sort_by le [] = []
  sort_by le (x ∷ xs) = insert_by le x (sort_by le xs)

  -- Every element satisfies a predicate.
  abbrev pub All {κ} : (A → Type κ) → List A → Type κ
  All P [] = Unit
  All P (x ∷ xs) = P x × All P xs

  pub filter-append :
      (p : A → Bool) (xs ys : List A) → filter p (xs ++ ys) ≡ filter p xs ++ filter p ys
  filter-append p [] ys = refl
  filter-append p (x ∷ xs) ys = ground (arith, filter-append p xs ys)

  pub insert_by-append :
      (le : A → A → Bool) (x e : A) (xs : List A)
      → le x e ≡ true
      → insert_by le x (xs ++ e ∷ []) ≡ insert_by le x xs ++ e ∷ []
  insert_by-append le x e [] h = ground arith
  insert_by-append le x e (y ∷ ys) h = ground (arith, insert_by-append le x e ys h)

  -- What comes last in the order stays last.
  pub sort_by-append :
      (le : A → A → Bool) (e : A) (xs : List A)
      → All (λ x. le x e ≡ true) xs
      → sort_by le (xs ++ e ∷ []) ≡ sort_by le xs ++ e ∷ []
  sort_by-append le e [] h = refl
  sort_by-append le e (x ∷ xs) (h, hs) =
      rw (sort_by-append le e xs hs) (insert_by-append le x e (sort_by le xs) h)

  pub All-append {κ} : (P : A → Type κ) (xs ys : List A) → All P xs → All P ys → All P (xs ++ ys)
  All-append P [] ys h k = k
  All-append P (x ∷ xs) ys (h, hs) k = (h, All-append P xs ys hs k)

  pub All-mono {κ} :
      (P Q : A → Type κ) → ((x : A) → P x → Q x) → (xs : List A) → All P xs → All Q xs
  All-mono P Q f [] h = tt
  All-mono P Q f (x ∷ xs) (h, hs) = (f x h, All-mono P Q f xs hs)

  pub All-filter {κ} :
      (P : A → Type κ) (p : A → Bool) (xs : List A) → All P xs → All P (filter p xs)
  All-filter P p [] h = tt
  All-filter P p (x ∷ xs) (h, hs) = elim (Bool-cases (p x)) [
    | inl kept ↦ rw kept (h, All-filter P p xs hs)
    | inr dropped ↦ rw dropped (All-filter P p xs hs)
  ]

  -- What is kept satisfies the test.
  pub All-filter_self : (p : A → Bool) (xs : List A) → All (λ x. p x ≡ true) (filter p xs)
  All-filter_self p [] = tt
  All-filter_self p (x ∷ xs) = elim (Bool-cases (p x)) [
    | inl kept ↦ rw kept (kept, All-filter_self p xs)
    | inr dropped ↦ rw dropped (All-filter_self p xs)
  ]

  pub All-insert_by {κ} :
      (P : A → Type κ) (le : A → A → Bool) (x : A) (xs : List A)
      → P x
      → All P xs
      → All P (insert_by le x xs)
  All-insert_by P le x [] h hs = (h, tt)
  All-insert_by P le x (y ∷ ys) h (k, ks) = elim (Bool-cases (le x y)) [
    | inl before ↦ rw before (h, (k, ks))
    | inr behind ↦ rw behind (k, All-insert_by P le x ys h ks)
  ]

  pub All-sort_by {κ} :
      (P : A → Type κ) (le : A → A → Bool) (xs : List A) → All P xs → All P (sort_by le xs)
  All-sort_by P le [] h = tt
  All-sort_by P le (x ∷ xs) (h, hs) =
      All-insert_by P le x (sort_by le xs) h (All-sort_by P le xs hs)

  pub All-both {κ} :
      (P Q : A → Type κ) (xs : List A) → All P xs → All Q xs → All (λ x. P x × Q x) xs
  All-both P Q [] h k = tt
  All-both P Q (x ∷ xs) (h, hs) (k, ks) = ((h, k), All-both P Q xs hs ks)

pub contains-append :
    (xs ys : List ℕ) (k : ℕ) → contains (xs ++ ys) k ≡ (contains xs k || contains ys k)
contains-append [] ys k = refl
contains-append (x ∷ xs) ys k = ground (arith, contains-append xs ys k)
