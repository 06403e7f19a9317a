-- ===== src/Turn/Waves.antt =====
-- src/loop_engine.rs: the calls of a round are run in waves (`execute_in_waves`). A wave is a call
-- that writes, or the calls that only read up to the next that does not: those run at the same
-- time, all of them, and their results are read in order. `run i call` is `execute_one` for the call
-- at the position i.
pub mod Order
use dtcoder_test.Prelude.{
  ℕ, zero, suc, ◌+◌, ◌-◌, ◌≤◌, ◌≡◌, refl, sym, ap, ◌∙◌, ◌⊎◌, inl, inr, Bool, true, false, List, [],
  ◌∷◌, ◌++◌, if◌then◌else◌, length, take, drop, arith, All, Bool-cases,
}

module _ {B E : Type 0} where
  abbrev pub cons_result : B ⊎ E → List B ⊎ E → List B ⊎ E
  cons_result (inr e) rest = inr e
  cons_result (inl b) (inr e) = inr e
  cons_result (inl b) (inl bs) = inl (b ∷ bs)

  abbrev pub append_results : List B ⊎ E → List B ⊎ E → List B ⊎ E
  append_results (inr e) rest = inr e
  append_results (inl bs) (inr e) = inr e
  append_results (inl bs) (inl more) = inl (bs ++ more)

  abbrev pub is_ok : List B ⊎ E → Bool
  is_ok (inl bs) = true
  is_ok (inr e) = false

module _ {A B E : Type 0} (is_read_only : A → Bool) (run : ℕ → A → B ⊎ E) where
  -- The calls one after the other: their results in order, or the first error.
  abbrev pub collect : ℕ → List A → List B ⊎ E
  collect i [] = inl []
  collect i (call ∷ calls) = cons_result (run i call) (collect (i + 1) calls)

  -- The `while end < calls.len()`.
  abbrev pub reads : List A → ℕ
  reads [] = 0
  reads (call ∷ calls) = let more = reads calls in if is_read_only call then suc more else 0

  abbrev pub wave_end : A → List A → ℕ
  wave_end call calls = if is_read_only call then suc (reads calls) else 1

  abbrev pub after_wave : List A → List B ⊎ E → List A × (List B ⊎ E) → List A × (List B ⊎ E)
  after_wave wave results (started, more) =
      (if is_ok results then wave ++ started else wave, append_results results more)

  -- The calls that were started, and the results; the first argument is fuel.
  unfoldable pub execute_in_waves : ℕ → ℕ → List A → List A × (List B ⊎ E)
  execute_in_waves zero i calls = ([], inl [])
  execute_in_waves (suc fuel) i [] = ([], inl [])
  execute_in_waves (suc fuel) i (call ∷ calls) =
      let n = wave_end call calls in
      let wave = take n (call ∷ calls) in
      after_wave wave (collect i wave) (execute_in_waves fuel (i + n) (drop n (call ∷ calls)))
