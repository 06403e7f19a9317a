-- ===== src/Approvals/Traces.antt =====
-- The approvals over sequences of calls (src/daemon/approval.rs).
use dtcoder_test.Prelude.{
  ℕ, ◌≤◌, ◌≡◌, refl, ap, Bool, true, false, String, Option, none, some, List, [], ◌∷◌, ◌⊎◌, inl,
  inr, ◌==◌, is_some, arith, Bool-cases,
}
use dtcoder_test.Approvals.{
  RequestId, PendingApproval, Waiter, absent, answered, ApprovalBroker, default, is_waiting,
  request, respond_if, respond_claimed, cancel_request_in_session, stop_waiting,
}

pub data Call : Type 0 where
  request_call : RequestId → Option String → Bool → Call
  -- whether the store lets the answer be claimed
  respond_call : ℕ → Bool → Bool → Call
  cancel_call : String → RequestId → Call
  stop_call : ℕ → Call

abbrev pub claim_of : Bool → Unit {0} ⊎ Unit {0}
claim_of true = inl tt
claim_of false = inr tt

abbrev pub perform : Call → ApprovalBroker → ApprovalBroker
perform (request_call r session connected) b = (request r session connected b).0
perform (respond_call id approved claimed) b = (respond_claimed id approved (claim_of claimed) b).0
perform (cancel_call session r) b = cancel_request_in_session session r b
perform (stop_call id) b = stop_waiting id b

-- The calls, the last first.
unfoldable pub perform_all : List Call → ApprovalBroker
perform_all [] = default
perform_all (call ∷ calls) = perform call (perform_all calls)

abbrev pub is_answered : Waiter → Bool
is_answered (answered b) = true
is_answered other = false

abbrev pub is_absent : Waiter → Bool
is_absent absent = true
is_absent other = false

-- What holds of every id: whoever waits can be answered, who has an answer is not pending, and an id
-- that was not given out is free.
pub record IsConsistent (b : ApprovalBroker) (id : ℕ) : Type 0 where
  pub can_be_answered : is_waiting (b.waiter id) ≡ true → is_some (b.pending id) ≡ true
  pub answered_once : is_answered (b.waiter id) ≡ true → is_some (b.pending id) ≡ false
  pub free : b.next_id ≤ id → (is_some (b.pending id) ≡ false) × (is_absent (b.waiter id) ≡ true)

-- An id that is neither pending nor waiting is as before, whatever is sent to it.
respond-IsConsistent :
    (other : ℕ) (approved claimed : Bool) (b : ApprovalBroker) (id : ℕ) (p : Option PendingApproval)
    → b.pending other ≡ p
    → IsConsistent b id
    → IsConsistent (respond_if p other approved (claim_of claimed) b).0 id
respond-IsConsistent other approved claimed b id none e c = c
respond-IsConsistent other approved false b id (some p) e c = c
respond-IsConsistent other approved true b id (some p) e c = elim (Bool-cases (id == other)) [
  | inl h ↦
      let same : id ≡ other = ground arith in
      record {
        can_be_answered = λ k. ground (arith, c.can_be_answered);
        answered_once = λ k. ground arith;
        free = λ k.
            (ground arith, ground (arith, c.free, same, e, ap b.pending same, ap b.waiter same));
      }
  | inr h ↦ record {
    can_be_answered = λ k. ground (arith, c.can_be_answered);
    answered_once = λ k. ground (arith, c.answered_once);
    free = λ k. (ground (arith, c.free), ground (arith, c.free));
  }
]

perform-IsConsistent :
    (call : Call) (b : ApprovalBroker) (id : ℕ)
    → IsConsistent b id
    → IsConsistent (perform call b) id
unfolding respond_claimed cancel_request_in_session stop_waiting
perform-IsConsistent (request_call r session true) b id c = record {
  can_be_answered = λ h. ground (arith, c.can_be_answered);
  answered_once = λ h. ground (arith, c.answered_once);
  free = λ h. (ground (arith, c.free), ground (arith, c.free));
}
perform-IsConsistent (request_call r session false) b id c = record {
  can_be_answered = c.can_be_answered;
  answered_once = c.answered_once;
  free = λ h. c.free (omega arith);
}
perform-IsConsistent (cancel_call session r) b id c = record {
  can_be_answered = λ h. ground (arith, c.can_be_answered);
  answered_once = λ h. ground (arith, c.answered_once);
  free = λ h. (ground (arith, c.free), ground (arith, c.free));
}
perform-IsConsistent (stop_call other) b id c = record {
  can_be_answered = λ h. ground (arith, c.can_be_answered, ap b.waiter);
  answered_once = λ h. ground (arith, c.answered_once);
  free = λ h. (ground (arith, c.free), ground (arith, c.free));
}
perform-IsConsistent (respond_call other approved claimed) b id c =
    respond-IsConsistent other approved claimed b id (b.pending other) refl c

keeps_answer :
    (call : Call) (b : ApprovalBroker) (id : ℕ) (answer : Bool)
    → IsConsistent b id
    → b.waiter id ≡ answered answer
    → (perform call b).waiter id ≡ answered answer
unfolding respond_claimed cancel_request_in_session stop_waiting
keeps_answer (request_call r session true) b id answer c h = ground (arith, c.free)
keeps_answer (request_call r session false) b id answer c h = h
keeps_answer (cancel_call session r) b id answer c h = ground arith
keeps_answer (stop_call other) b id answer c h = elim (Bool-cases (id == other)) [
  | inl e ↦ let same : id ≡ other = ground arith in ground (arith, ap b.waiter same)
  | inr e ↦ rw e h
]
keeps_answer (respond_call other approved true) b id answer c h = elim (Bool-cases (id == other)) [
  | inl e ↦
      let same : id ≡ other = ground arith in
      ground (arith, c.answered_once, ap b.pending same, ap b.waiter same)
  | inr e ↦ ground arith
]
keeps_answer (respond_call other approved false) b id answer c h = ground arith

all-IsConsistent : (calls : List Call) (id : ℕ) → IsConsistent (perform_all calls) id
unfolding perform_all
all-IsConsistent [] id = record {
  can_be_answered = λ h. absurd (ground arith);
  answered_once = λ h. refl;
  free = λ h. (refl, refl);
}
all-IsConsistent (call ∷ calls) id =
    perform-IsConsistent call (perform_all calls) id (all-IsConsistent calls id)

-- After any sequence of requests, answers, cancellations and executions that stop: every execution
-- that still waits is pending, so that it can be answered; one that has its answer is not pending,
-- and no later call, another answer or a cancellation, changes that answer.
pub perform_all-IsConsistent :
    (calls : List Call) (id : ℕ)
    → IsConsistent (perform_all calls) id
      × ((call : Call) (answer : Bool)
          → (perform_all calls).waiter id ≡ answered answer
          → (perform_all (call ∷ calls)).waiter id ≡ answered answer)
unfolding perform_all
perform_all-IsConsistent calls id = (
  all-IsConsistent calls id,
  λ call answer h. keeps_answer call (perform_all calls) id answer (all-IsConsistent calls id) h,
)
