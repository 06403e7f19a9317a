-- ===== src/Prelude/Tables.antt =====
-- SQL tables as lists of rows: what SELECT, UPDATE ... WHERE and count(*) do to them.
use Prim.Native.Nat.{ℕ, suc, ◌+◌, ◌≤◌}
use mathlib.Core.Path.{◌≡◌, refl}
use mathlib.Core.Logic.{inl, inr}
use mathlib.Core.Bool.{Bool, true}
use mathlib.Core.List.{List, [], ◌∷◌, ◌++◌}
use mathlib.Core.Option.{Option, none, some}
use native.Mathlib.Omega.{arith}
use dtcoder_test.Prelude.Tests.{if◌then◌else◌, Bool-cases}
use dtcoder_test.Prelude.Lists.{All}

module _ {ℓ} {A : Type ℓ} where
  -- The first row that passes the test.
  abbrev pub first_where : (A → Bool) → List A → Option A
  first_where p [] = none
  first_where p (x ∷ xs) = if p x then some x else first_where p xs

  -- UPDATE t SET f WHERE p
  abbrev pub update_where : (A → Bool) → (A → A) → List A → List A
  update_where p f [] = []
  update_where p f (x ∷ xs) = (if p x then f x else x) ∷ update_where p f xs

  -- SELECT count(*) FROM t WHERE p
  abbrev pub count_where : (A → Bool) → List A → ℕ
  count_where p [] = 0
  count_where p (x ∷ xs) = let rest = count_where p xs in if p x then suc rest else rest

  abbrev pub select_where : (A → Bool) → List A → List A
  select_where p [] = []
  select_where p (x ∷ xs) = let rest = select_where p xs in if p x then x ∷ rest else rest

module _ {ℓ} {A : Type ℓ} where
  pub count_where-append :
      (p : A → Bool) (xs ys : List A)
      → count_where p (xs ++ ys) ≡ count_where p xs + count_where p ys
  count_where-append p [] ys = omega arith
  count_where-append p (x ∷ xs) ys = ground (arith, count_where-append p xs ys)

  pub first_where-passes :
      (p : A → Bool) (xs : List A) {a : A} → first_where p xs ≡ some a → p a ≡ true
  first_where-passes p [] h = ground arith
  first_where-passes p (x ∷ xs) {a} h = elim (Bool-cases (p x)) [
    | inl e ↦ ground arith
    | inr e ↦ first_where-passes p xs (ground arith)
  ]

abbrev pub map_option {ℓ κ} : {A : Type ℓ} {B : Type κ} → (A → B) → Option A → Option B
map_option f none = none
map_option f (some a) = some (f a)

-- A row after UPDATE t SET f WHERE p.
abbrev pub updated {ℓ} : {A : Type ℓ} → (A → Bool) → (A → A) → A → A
updated p f x = if p x then f x else x

module _ {ℓ} {A : Type ℓ} (q p : A → Bool) (f : A → A) where
  -- An update that leaves the searched column alone updates the row that is found.
  pub first_where-update_where :
      ((x : A) → p x ≡ true → q (f x) ≡ q x)
      → (xs : List A)
      → first_where q (update_where p f xs) ≡ map_option (updated p f) (first_where q xs)
  first_where-update_where keeps [] = refl
  first_where-update_where keeps (x ∷ xs) =
      ground (arith, keeps x, first_where-update_where keeps xs)

  -- Rows that did not pass `q` before the update and do after it are among those updated.
  pub count_where-update_where_le :
      (xs : List A) → count_where q (update_where p f xs) ≤ count_where q xs + count_where p xs
  count_where-update_where_le [] = omega arith
  count_where-update_where_le (x ∷ xs) = ground (arith, count_where-update_where_le xs)

  pub count_where-update_where_mono :
      (xs : List A)
      → All (λ x. p x ≡ true → q (f x) ≡ true → q x ≡ true) xs
      → count_where q (update_where p f xs) ≤ count_where q xs
  count_where-update_where_mono [] h = omega arith
  count_where-update_where_mono (x ∷ xs) h =
      ground (arith, h.0, count_where-update_where_mono xs h.1)

  pub count_where-update_where_eq :
      ((x : A) → p x ≡ true → q (f x) ≡ q x)
      → (xs : List A) → count_where q (update_where p f xs) ≡ count_where q xs
  count_where-update_where_eq keeps [] = refl
  count_where-update_where_eq keeps (x ∷ xs) =
      ground (arith, keeps x, count_where-update_where_eq keeps xs)

module _ {ℓ κ} {A : Type ℓ} (q : A → Bool) (P : A → Type κ) where
  pub All-of_count_zero : (xs : List A) → count_where q xs ≡ 0 → All (λ x. q x ≡ true → P x) xs
  All-of_count_zero [] h = tt
  All-of_count_zero (x ∷ xs) h = elim (Bool-cases (q x)) [
    | inl e ↦ absurd (ground arith)
    | inr e ↦ (λ e'. cc, All-of_count_zero xs (ground arith))
  ]

  -- Where at most one row passes, what holds of the row found holds of every row that passes.
  pub All-of_first_where :
      (xs : List A) (a : A)
      → count_where q xs ≤ 1
      → first_where q xs ≡ some a
      → P a
      → All (λ x. q x ≡ true → P x) xs
  All-of_first_where [] a le h pa = tt
  All-of_first_where (x ∷ xs) a le h pa = elim (Bool-cases (q x)) [
    | inl e ↦
        let same : x ≡ a = ground arith in (λ e'. rw same pa, All-of_count_zero xs (ground arith))
    | inr e ↦ (λ e'. cc, All-of_first_where xs a (ground arith) (ground arith) pa)
  ]
