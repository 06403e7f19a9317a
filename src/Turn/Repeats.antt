-- ===== src/Turn/Repeats.antt =====
-- src/loop_engine.rs: how often in a row a round has called the same tools with the same results
-- (`RepeatDetector`). `usize` has 64 bits.
use dtcoder_test.Prelude.{
  ℕ, ◌+◌, ◌≡◌, refl, ap, ◌∙◌, String, Bool, true, false, ◌&&◌, Option, none, some, List, [], ◌∷◌,
  if◌then◌else◌, arith, ◌==◌, str_eq, eq_iff, u64_max, cap_at, Bool-cases, inl, inr,
}

pub record ToolFingerprint : Type 0 where
  pub tool_name : String
  pub arguments : ℕ
  pub result : ℕ

abbrev pub fingerprint_eq : ToolFingerprint → ToolFingerprint → Bool
fingerprint_eq f g =
    str_eq f.tool_name g.tool_name && f.arguments == g.arguments && f.result == g.result

abbrev pub fingerprints_eq : List ToolFingerprint → List ToolFingerprint → Bool
fingerprints_eq [] [] = true
fingerprints_eq [] (g ∷ gs) = false
fingerprints_eq (f ∷ fs) [] = false
fingerprints_eq (f ∷ fs) (g ∷ gs) = fingerprint_eq f g && fingerprints_eq fs gs

pub record RepeatDetector : Type 0 where
  pub last : Option (List ToolFingerprint)
  pub count : ℕ

abbrev pub default : RepeatDetector
default = record { last = none; count = 0 }

abbrev pub is_last : Option (List ToolFingerprint) → List ToolFingerprint → Bool
is_last none fingerprints = false
is_last (some last) fingerprints = fingerprints_eq last fingerprints

-- `observe`; its result is the new count.
abbrev pub observe : List ToolFingerprint → RepeatDetector → RepeatDetector
observe fingerprints d =
    if is_last d.last fingerprints
    then record d { count = cap_at u64_max (d.count + 1) }
    else record { last = some fingerprints; count = 1 }

-- The detector after the rounds, newest first.
unfoldable pub observe_all : List (List ToolFingerprint) → RepeatDetector
observe_all [] = default
observe_all (newest ∷ older) = observe newest (observe_all older)

-- How many of the rounds, newest first, are the same as the newest without another between them.
abbrev pub run_from : List ToolFingerprint → List (List ToolFingerprint) → ℕ
run_from newest [] = 0
run_from newest (f ∷ older) =
    let more = run_from newest older in if fingerprints_eq f newest then 1 + more else 0

abbrev pub trailing_run : List (List ToolFingerprint) → ℕ
trailing_run [] = 0
trailing_run (newest ∷ older) = 1 + run_from newest older

fingerprint-eq : (f g : ToolFingerprint) → fingerprint_eq f g ≡ true → f ≡ g
fingerprint-eq f g h = ground (arith, eq_iff f.tool_name g.tool_name)

fingerprints-eq : (fs gs : List ToolFingerprint) → fingerprints_eq fs gs ≡ true → fs ≡ gs
fingerprints-eq [] [] h = refl
fingerprints-eq [] (g ∷ gs) h = absurd (ground arith)
fingerprints-eq (f ∷ fs) [] h = absurd (ground arith)
fingerprints-eq (f ∷ fs) (g ∷ gs) h =
    let first = fingerprint-eq f g (ground arith) in
    let rest = fingerprints-eq fs gs (ground arith) in cc

observe_all-last :
    (newest : List ToolFingerprint) (older : List (List ToolFingerprint))
    → (observe_all (newest ∷ older)).last ≡ some newest
unfolding observe_all
observe_all-last newest [] = refl
observe_all-last newest (f ∷ older) =
    elim (Bool-cases (is_last (observe_all (f ∷ older)).last newest)) [
      | inl e ↦
          let l = observe_all-last f older in
          let same = fingerprints-eq f newest (rw l at e) in rw e (l ∙ ap some same)
      | inr e ↦ rw e refl
    ]

-- The count of the detector is the number of rounds at the end that all have the same calls,
-- arguments and results (up to the largest `usize`), whatever the rounds before them were.
pub observe_all-trailing_run :
    (rounds : List (List ToolFingerprint))
    → (observe_all rounds).count ≡ cap_at u64_max (trailing_run rounds)
unfolding observe_all
observe_all-trailing_run [] = refl
observe_all-trailing_run (newest ∷ []) = refl
observe_all-trailing_run (newest ∷ f ∷ older) =
    let ih = observe_all-trailing_run (f ∷ older) in
    let l = observe_all-last f older in
    elim (Bool-cases (fingerprints_eq f newest)) [
      | inl e ↦
          let test : is_last (observe_all (f ∷ older)).last newest ≡ true = rw l e in
          let same =
            ap (λ (g : List ToolFingerprint). run_from g older) (fingerprints-eq f newest e) in
          rw (test, e) (ground arith)
      | inr e ↦
          let test : is_last (observe_all (f ∷ older)).last newest ≡ false = rw l e in
          rw (test, e) refl
    ]
