-- ===== src/Turn/Waves/Order.antt =====
-- The waves against the calls one after the other (src/loop_engine.rs).
use dtcoder_test.Prelude.{
  ℕ, zero, suc, ◌+◌, ◌≤◌, ◌≡◌, refl, sym, ap, ◌∙◌, ◌⊎◌, inl, inr, Bool, true, false, List, [], ◌∷◌,
  ◌++◌, length, length-append, take, drop, take-drop, length-take, length-drop, drop-append,
  All-drop, arith, All, Bool-cases,
}
use mathlib.Core.List.{append_assoc}
use dtcoder_test.Turn.Waves.{
  cons_result, append_results, is_ok, collect, reads, wave_end, execute_in_waves,
}

module _ {A B E : Type 0} (is_read_only : A → Bool) (run : ℕ → A → B ⊎ E) where
  abbrev pub AllRead : List A → Type 0
  AllRead = All (λ call. is_read_only call ≡ true)

  -- How many results there are before the first error.
  abbrev pub success : B ⊎ E → ℕ → ℕ
  success (inl b) n = suc n
  success (inr e) n = 0

  abbrev pub successes : ℕ → List A → ℕ
  successes i [] = 0
  successes i (call ∷ calls) = success (run i call) (successes (i + 1) calls)

  reads-take : (calls : List A) → AllRead (take (reads is_read_only run calls) calls)
  reads-take [] = tt
  reads-take (call ∷ calls) = elim (Bool-cases (is_read_only call)) [
    | inl e ↦ rw e (e, reads-take calls)
    | inr e ↦ rw e tt
  ]

  reads-le : (calls : List A) → reads is_read_only run calls ≤ length calls
  reads-le [] = omega arith
  reads-le (call ∷ calls) = let ih = reads-le calls in ground arith

  wave_end-le :
      (call : A) (calls : List A)
      → (1 ≤ wave_end is_read_only run call calls)
        × (wave_end is_read_only run call calls ≤ suc (length calls))
  wave_end-le call calls = let r = reads-le calls in (ground arith, ground arith)

  -- Behind the first call of a wave there are only calls that read.
  wave-AllRead :
      (k : ℕ) (call : A) (calls : List A)
      → AllRead (drop (suc k) (take (wave_end is_read_only run call calls) (call ∷ calls)))
  wave-AllRead k call calls = elim (Bool-cases (is_read_only call)) [
    | inl e ↦ rw e (All-drop (λ c. is_read_only c ≡ true) k _ (reads-take calls))
    | inr e ↦ rw e (All-drop (λ c. is_read_only c ≡ true) k [] tt)
  ]

  append-cons :
      (r : B ⊎ E) (xs ys : List B ⊎ E)
      → append_results (cons_result r xs) ys ≡ cons_result r (append_results xs ys)
  append-cons (inr e) xs ys = refl
  append-cons (inl b) (inr e) ys = refl
  append-cons (inl b) (inl bs) (inr e) = refl
  append-cons (inl b) (inl bs) (inl cs) = refl

  append-empty : (xs : List B ⊎ E) → append_results (inl []) xs ≡ xs
  append-empty (inl bs) = refl
  append-empty (inr e) = refl

  collect-append :
      (i : ℕ) (xs ys : List A)
      → collect is_read_only run i (xs ++ ys)
        ≡ append_results
            (collect is_read_only run i xs)
            (collect is_read_only run (i + length xs) ys)
  collect-append i [] ys =
      let e : i + 0 ≡ i = omega arith in rw e (sym (append-empty (collect is_read_only run i ys)))
  collect-append i (x ∷ xs) ys =
      let ih = collect-append (i + 1) xs ys in
      let shift : i + 1 + length xs ≡ i + length (x ∷ xs) = omega arith in
      ap (cons_result (run i x)) (rw shift at ih)
      ∙ sym (append-cons (run i x) (collect is_read_only run (i + 1) xs) _)

  success-cons :
      (r : B ⊎ E) (n : ℕ) (xs : List B ⊎ E) → is_ok (cons_result r xs) ≡ true → success r n ≡ suc n
  success-cons (inl b) n xs h = refl
  success-cons (inr e) n xs h = absurd (ground arith)

  is_ok-cons : (r : B ⊎ E) (xs : List B ⊎ E) → is_ok (cons_result r xs) ≡ true → is_ok xs ≡ true
  is_ok-cons (inl b) (inl bs) h = refl
  is_ok-cons (inl b) (inr e) h = h
  is_ok-cons (inr e) xs h = absurd (ground arith)

  successes-ok :
      (i : ℕ) (xs ys : List A)
      → is_ok (collect is_read_only run i xs) ≡ true
      → successes i (xs ++ ys) ≡ length xs + successes (i + length xs) ys
  successes-ok i [] ys h = let e : i + 0 ≡ i = omega arith in rw e (omega arith)
  successes-ok i (x ∷ xs) ys h =
      let rest =
        successes-ok (i + 1) xs ys (is_ok-cons (run i x) (collect is_read_only run (i + 1) xs) h) in
      let shift : i + 1 + length xs ≡ i + length (x ∷ xs) = omega arith in
      success-cons (run i x) (successes (i + 1) (xs ++ ys)) (collect is_read_only run (i + 1) xs) h
      ∙ ap suc (rw shift at rest)
      ∙ omega arith

  -- A round of calls gives what the calls give one after the other, in the order of the model: their
  -- results, or the first error. This needs no more fuel than there are calls.
  pub execute_in_waves-collect :
      (fuel i : ℕ) (calls : List A)
      → length calls ≤ fuel
      → (execute_in_waves is_read_only run fuel i calls).1 ≡ collect is_read_only run i calls
  unfolding execute_in_waves
  execute_in_waves-collect zero i [] h = refl
  execute_in_waves-collect zero i (call ∷ calls) h = absurd (omega arith)
  execute_in_waves-collect (suc fuel) i [] h = refl
  execute_in_waves-collect (suc fuel) i (call ∷ calls) h =
      let all = call ∷ calls in
      let n = wave_end is_read_only run call calls in
      let (low, high) = wave_end-le call calls in
      let size = length-take n all high in
      let split = collect-append i (take n all) (drop n all) in
      let rest =
        execute_in_waves-collect fuel (i + n) (drop n all) (omega (arith, length-drop n all)) in
      ap (append_results (collect is_read_only run i (take n all))) rest
      ∙ sym (rw (size, take-drop n all) at split)

  -- What has been started when the waves end.
  pub record IsOrdered (i : ℕ) (calls started : List A) : Type 0 where
    pub prefix : started ++ drop (length started) calls ≡ calls
    pub complete : is_ok (collect is_read_only run i calls) ≡ true → started ≡ calls
    pub reads_only : AllRead (drop (suc (successes i calls)) started)

  is_ok-append_err : (xs ys : List B ⊎ E) → is_ok xs ≡ false → is_ok (append_results xs ys) ≡ false
  is_ok-append_err (inl bs) ys h = absurd (ground arith)
  is_ok-append_err (inr e) ys h = refl

  is_ok-append_ok :
      (xs ys : List B ⊎ E) → is_ok xs ≡ true → is_ok (append_results xs ys) ≡ true → is_ok ys ≡ true
  is_ok-append_ok (inl bs) (inl cs) h k = refl
  is_ok-append_ok (inl bs) (inr e) h k = k
  is_ok-append_ok (inr e) ys h k = absurd (ground arith)

  extend-IsOrdered :
      (i : ℕ) (wave rest started : List A)
      → is_ok (collect is_read_only run i wave) ≡ true
      → IsOrdered (i + length wave) rest started
      → IsOrdered i (wave ++ rest) (wave ++ started)
  extend-IsOrdered i wave rest started h o = record {
    prefix =
        let tail : drop (length (wave ++ started)) (wave ++ rest) ≡ drop (length started) rest =
          ap (λ (k : ℕ). drop k (wave ++ rest)) (length-append wave started)
          ∙ drop-append (length started) wave rest in
        rw tail (
          append_assoc wave started (drop (length started) rest)
          ∙ ap (λ (l : List A). wave ++ l) o.prefix);
    complete = λ c.
        ap (λ (l : List A). wave ++ l)
          (o.complete (
            is_ok-append_ok (collect is_read_only run i wave) _ h
              (rw (collect-append i wave rest) at c)));
    reads_only =
        let count : suc (successes i (wave ++ rest))
            ≡ length wave + suc (successes (i + length wave) rest) =
          omega (arith, successes-ok i wave rest h) in
        rw (count, drop-append (suc (successes (i + length wave) rest)) wave started) o.reads_only;
  }

  stopped-IsOrdered :
      (i n : ℕ) (all : List A)
      → n ≤ length all
      → is_ok (collect is_read_only run i (take n all)) ≡ false
      → ((k : ℕ) → AllRead (drop (suc k) (take n all)))
      → IsOrdered i all (take n all)
  stopped-IsOrdered i n all l h r = record {
    prefix = rw (length-take n all l) (take-drop n all);
    complete = λ c.
        let whole = rw (take-drop n all) at (collect-append i (take n all) (drop n all)) in
        let bad =
          is_ok-append_err (collect is_read_only run i (take n all))
            (collect is_read_only run (i + length (take n all)) (drop n all)) h in
        absurd (ground (arith, ap is_ok whole));
    reads_only = r (successes i all);
  }

  -- The calls that a round starts are the first of the model's calls, in their order, and all of
  -- them where all succeed; behind a call that gives an error only calls that read were started, so
  -- no call that writes starts before every call in front of it has succeeded.
  pub execute_in_waves-IsOrdered :
      (fuel i : ℕ) (calls : List A)
      → length calls ≤ fuel
      → IsOrdered i calls ((execute_in_waves is_read_only run fuel i calls).0)
  unfolding execute_in_waves
  execute_in_waves-IsOrdered zero i [] h = record {
    prefix = refl;
    complete = λ c. refl;
    reads_only = tt;
  }
  execute_in_waves-IsOrdered zero i (call ∷ calls) h = absurd (omega arith)
  execute_in_waves-IsOrdered (suc fuel) i [] h = record {
    prefix = refl;
    complete = λ c. refl;
    reads_only = tt;
  }
  execute_in_waves-IsOrdered (suc fuel) i (call ∷ calls) h =
      let all = call ∷ calls in
      let n = wave_end is_read_only run call calls in
      let (low, high) = wave_end-le call calls in
      let size = length-take n all high in
      elim (Bool-cases (is_ok (collect is_read_only run i (take n all)))) [
        | inl e ↦
            let rest =
              execute_in_waves-IsOrdered fuel (i + n) (drop n all)
                (omega (arith, length-drop n all)) in
            let whole =
              extend-IsOrdered i (take n all) (drop n all)
                ((execute_in_waves is_read_only run fuel (i + n) (drop n all)).0) e
                (rw size rest) in
            rw e (rw (take-drop n all) at whole)
        | inr e ↦ rw e (stopped-IsOrdered i n all high e (λ k. wave-AllRead k call calls))
      ]

  -- A round executes its calls as if one after the other: it gives their results in the order of the
  -- model, or the first error, with no more fuel than there are calls. The calls that it starts are
  -- the first of the model's calls, in their order, and all of them where all succeed; behind a call
  -- that gives an error only calls that read were started, so no call that writes starts before
  -- every call in front of it has succeeded.
  pub execute_in_waves_lem :
      (i : ℕ) (calls : List A)
      → ((execute_in_waves is_read_only run (length calls) i calls).1
          ≡ collect is_read_only run i calls)
        × IsOrdered i calls ((execute_in_waves is_read_only run (length calls) i calls).0)
  execute_in_waves_lem i calls = (
    execute_in_waves-collect (length calls) i calls (omega arith),
    execute_in_waves-IsOrdered (length calls) i calls (omega arith),
  )
