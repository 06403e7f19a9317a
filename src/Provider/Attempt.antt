-- ===== src/Provider/Attempt.antt =====
-- src/provider/attempt.rs: the usage that a provider reports for an attempt, and its sum over the
-- attempts of a run (`provider_usage` of src/storage/mod.rs).
use dtcoder_test.Prelude.{
  ℕ, ◌+◌, ◌≤◌, ◌≡◌, refl, Bool, false, ◌||◌, Option, none, some, List, [], ◌∷◌, arith, cap_at,
  u64_max, is_some,
}

pub record ProviderUsage : Type 0 where
  pub input_tokens : Option ℕ
  pub output_tokens : Option ℕ
  pub cache_read_tokens : Option ℕ
  pub cache_creation_tokens : Option ℕ

abbrev pub empty_usage : ProviderUsage
empty_usage = record {
  input_tokens = none;
  output_tokens = none;
  cache_read_tokens = none;
  cache_creation_tokens = none;
}

-- One round of the loop of `merge_partial`: a value that is reported replaces the one before.
abbrev pub merge_field : Option ℕ → Option ℕ → Option ℕ
merge_field target none = target
merge_field target (some value) = some value

abbrev pub merge_partial : ProviderUsage → ProviderUsage → ProviderUsage
merge_partial u other = record {
  input_tokens = merge_field u.input_tokens other.input_tokens;
  output_tokens = merge_field u.output_tokens other.output_tokens;
  cache_read_tokens = merge_field u.cache_read_tokens other.cache_read_tokens;
  cache_creation_tokens = merge_field u.cache_creation_tokens other.cache_creation_tokens;
}

-- `target.unwrap_or(0)`
abbrev pub value_or_zero : Option ℕ → ℕ
value_or_zero none = 0
value_or_zero (some value) = value

-- One round of the loop of `add_attempt`.
abbrev pub add_field : Option ℕ → Option ℕ → Option ℕ
add_field target none = target
add_field target (some value) = some (cap_at u64_max (value_or_zero target + value))

abbrev pub add_attempt : ProviderUsage → ProviderUsage → ProviderUsage
add_attempt u other = record {
  input_tokens = add_field u.input_tokens other.input_tokens;
  output_tokens = add_field u.output_tokens other.output_tokens;
  cache_read_tokens = add_field u.cache_read_tokens other.cache_read_tokens;
  cache_creation_tokens = add_field u.cache_creation_tokens other.cache_creation_tokens;
}

abbrev pub add_reported : ProviderUsage → Option ProviderUsage → ProviderUsage
add_reported total none = total
add_reported total (some usage) = add_attempt total usage

-- The loop of `provider_usage`, over what each attempt has reported.
unfoldable pub sum_usage : ProviderUsage → List (Option ProviderUsage) → ProviderUsage
sum_usage total [] = total
sum_usage total (usage ∷ usages) = sum_usage (add_reported total usage) usages

abbrev pub provider_usage : List (Option ProviderUsage) → ProviderUsage
provider_usage usages = sum_usage empty_usage usages

-- One field of every usage that is reported, and the sum of those that are known, without a bound.
abbrev pub field_of : (ProviderUsage → Option ℕ) → Option ProviderUsage → Option ℕ
field_of field none = none
field_of field (some usage) = field usage

abbrev pub exact_sum : (ProviderUsage → Option ℕ) → List (Option ProviderUsage) → ℕ
exact_sum field [] = 0
exact_sum field (u ∷ us) = value_or_zero (field_of field u) + exact_sum field us

abbrev pub is_reported : (ProviderUsage → Option ℕ) → List (Option ProviderUsage) → Bool
is_reported field [] = false
is_reported field (u ∷ us) = is_some (field_of field u) || is_reported field us

-- A projection that the sum goes through.
abbrev pub IsAdded : (ProviderUsage → Option ℕ) → Type 0
IsAdded field = (t u : ProviderUsage) → field (add_attempt t u) ≡ add_field (field t) (field u)

-- What the sum of a field is, from `start` on.
abbrev pub Sums :
    (ProviderUsage → Option ℕ) → Option ℕ → List (Option ProviderUsage) → Option ℕ → Type 0
Sums field start us total =
    (value_or_zero total ≡ cap_at u64_max (value_or_zero start + exact_sum field us))
    × (is_some total ≡ (is_some start || is_reported field us))

add_reported-Sums :
    (field : ProviderUsage → Option ℕ) (t : ProviderUsage) (u : Option ProviderUsage)
    → IsAdded field
    → value_or_zero (field t) ≤ u64_max
    → (value_or_zero (field (add_reported t u))
        ≡ cap_at u64_max (value_or_zero (field t) + value_or_zero (field_of field u)))
      × (is_some (field (add_reported t u)) ≡ (is_some (field t) || is_some (field_of field u)))
add_reported-Sums field t none added small = (ground arith, ground arith)
add_reported-Sums field t (some u) added small =
    (ground (arith, added t u), ground (arith, added t u))

sum_usage-Sums :
    (field : ProviderUsage → Option ℕ) (t : ProviderUsage) (us : List (Option ProviderUsage))
    → IsAdded field
    → value_or_zero (field t) ≤ u64_max
    → Sums field (field t) us (field (sum_usage t us))
unfolding sum_usage
sum_usage-Sums field t [] added small = (ground arith, ground arith)
sum_usage-Sums field t (u ∷ us) added small =
    let one = add_reported-Sums field t u added small in
    let rest = sum_usage-Sums field (add_reported t u) us added (ground (arith, one.0)) in
    (ground (arith, one.0, rest.0), ground (arith, one.1, rest.1))

-- The usage of a run has, for each kind of token, the sum of what its attempts reported, cut off at
-- the largest u64, and it is known exactly when some attempt reported it.
pub provider_usage-Sums :
    (us : List (Option ProviderUsage))
    → let total = provider_usage us in
      Sums (λ u. u.input_tokens) none us total.input_tokens
      × Sums (λ u. u.output_tokens) none us total.output_tokens
      × Sums (λ u. u.cache_read_tokens) none us total.cache_read_tokens
      × Sums (λ u. u.cache_creation_tokens) none us total.cache_creation_tokens
provider_usage-Sums us = (
  sum_usage-Sums (λ u. u.input_tokens) empty_usage us (λ t u. refl) (omega arith),
  sum_usage-Sums (λ u. u.output_tokens) empty_usage us (λ t u. refl) (omega arith),
  sum_usage-Sums (λ u. u.cache_read_tokens) empty_usage us (λ t u. refl) (omega arith),
  sum_usage-Sums (λ u. u.cache_creation_tokens) empty_usage us (λ t u. refl) (omega arith),
)
