-- ===== src/Result.antt =====
-- `Result<T, RuntimeError>` of src/storage/mod.rs. An operation that returns an error commits no
-- transaction, so it has no new state to return.
use dtcoder_test.Prelude.{◌≡◌, refl, String, Bool, true, false, if◌then◌else◌}

pub data RuntimeError : Type 0 where
  -- the request was cancelled
  cancelled : RuntimeError
  -- a query that must have a row has none, or a constraint refuses an insert
  persistence : String → RuntimeError
  protocol : String → RuntimeError
  request_timeout : RuntimeError
  provider_error tool_admission tool_execution interaction_waiting internal : String → RuntimeError

pub data Result {ℓ} (A : Type ℓ) : Type ℓ where
  ok : A → Result A
  err : RuntimeError → Result A

-- `?`: the first error ends the operation.
infixl 10 ◌>>=◌ ◌>>◌
abbrev pub ◌>>=◌ {ℓ κ} :
    {A : Type ℓ} {B : Type κ} (first : Result A) (next : A → Result B) → Result B
err refusal >>= next = err refusal
ok value >>= next = next value

abbrev pub ◌>>◌ {ℓ} : {B : Type ℓ} (first : Result (Unit {0})) (second : Result B) → Result B
first >> second = first >>= λ done. second

-- `if test { return Err(e) }`
abbrev pub reject_if : Bool → RuntimeError → Result (Unit {0})
reject_if true e = err e
reject_if false e = ok tt

-- What holds of the value, if there is one.
abbrev pub Ensures {ℓ κ} : {A : Type ℓ} → (A → Type κ) → Result A → Type κ
Ensures P (ok a) = P a
Ensures P (err e) = Unit

pub Ensures-bind {ℓ κ ι υ} :
    {A : Type ℓ} {B : Type κ} (P : A → Type ι) (Q : B → Type υ) (m : Result A) (f : A → Result B)
    → Ensures P m
    → ((a : A) → P a → Ensures Q (f a))
    → Ensures Q (m >>= f)
Ensures-bind P Q (ok a) f h k = k a h
Ensures-bind P Q (err e) f h k = tt

pub Ensures-if {ℓ κ} :
    {A : Type ℓ} (P : A → Type κ) (b : Bool) (m n : Result A)
    → (b ≡ true → Ensures P m)
    → (b ≡ false → Ensures P n)
    → Ensures P (if b then m else n)
Ensures-if P true m n hm hn = hm refl
Ensures-if P false m n hm hn = hn refl

pub Ensures-reject {κ} :
    {A : Type 0} (P : A → Type κ) (b : Bool) (e : RuntimeError) (m : Result A)
    → (b ≡ false → Ensures P m)
    → Ensures P (reject_if b e >> m)
Ensures-reject P true e m h = tt
Ensures-reject P false e m h = h refl

pub Ensures_of_ok {ℓ κ} :
    {A : Type ℓ} (P : A → Type κ) (m : Result A) (a : A) → m ≡ ok a → Ensures P m → P a
Ensures_of_ok P m a e h = rw e at h

pub Ensures-map {ℓ κ ι} :
    {A : Type ℓ} (P : A → Type κ) (Q : A → Type ι) (m : Result A)
    → ((a : A) → P a → Q a)
    → Ensures P m
    → Ensures Q m
Ensures-map P Q (ok a) f h = f a h
Ensures-map P Q (err e) f h = tt

pub Ensures-all {ℓ κ ι} :
    {A : Type ℓ} {I : Type ι} (P : I → A → Type κ) (m : Result A)
    → ((i : I) → Ensures (P i) m)
    → Ensures (λ a. (i : I) → P i a) m
Ensures-all P (ok a) h = h
Ensures-all P (err e) h = tt

pub Ensures-both {ℓ κ ι} :
    {A : Type ℓ} (P : A → Type κ) (Q : A → Type ι) (m : Result A)
    → Ensures P m
    → Ensures Q m
    → Ensures (λ a. P a × Q a) m
Ensures-both P Q (ok a) h k = (h, k)
Ensures-both P Q (err e) h k = tt
