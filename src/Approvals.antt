-- ===== src/Approvals.antt =====
-- src/daemon/approval.rs: the approvals that wait for the user's answer (`ApprovalBroker`). The id of
-- an approval holds a number that the process gives out once, which stands for the id. The map of
-- the pending approvals is a function; `waiter` is the other end of the channel `response`, which
-- the execution that asked holds, and drops when it is stopped. The mutex makes each call one step.
pub mod Traces
use dtcoder_test.Prelude.{
  ℕ, ◌+◌, ◌≡◌, Bool, true, false, not, ◌&&◌, String, Option, none, some, if◌then◌else◌, ◌⊎◌, inl,
  inr, ◌==◌, str_eq,
}

pub data RequestId : Type 0 where
  number : ℕ → RequestId
  string : String → RequestId

abbrev pub request_eq : RequestId → RequestId → Bool
request_eq (number m) (number n) = m == n
request_eq (string s) (string t) = str_eq s t
request_eq (number m) (string t) = false
request_eq (string s) (number n) = false

pub record PendingApproval : Type 0 where
  pub request_id : RequestId
  pub session_id : Option String

-- `absent`: no execution has asked under this id.
pub data Waiter : Type 0 where
  absent waiting gone : Waiter
  answered : Bool → Waiter

pub record ApprovalBroker : Type 0 where
  pub next_id : ℕ
  pub pending : ℕ → Option PendingApproval
  pub waiter : ℕ → Waiter

abbrev pub default : ApprovalBroker
default = record { next_id = 0; pending = λ id. none; waiter = λ id. absent }

-- `oneshot::Sender::send`: whoever has dropped the receiver gets nothing.
abbrev pub send : Bool → Waiter → Waiter
send approved waiting = answered approved
send approved other = other

abbrev pub is_waiting : Waiter → Bool
is_waiting waiting = true
is_waiting other = false

abbrev pub set : {A : Type 0} → ℕ → A → (ℕ → A) → ℕ → A
set id value f other = if other == id then value else f other

-- `request`, up to the wait: the id, unless nobody reads the events any more.
abbrev pub request : RequestId → Option String → Bool → ApprovalBroker → ApprovalBroker × Option ℕ
request request_id session_id connected b =
    if connected
    then (
      record b {
        next_id = b.next_id + 1;
        pending =
            set b.next_id (some (record { request_id = request_id; session_id = session_id }))
              b.pending;
        waiter = set b.next_id waiting b.waiter;
      },
      some b.next_id,
    )
    else (record b { next_id = b.next_id + 1 }, none)

pub data ApprovalError (E : Type 0) : Type 0 where
  not_pending execution_gone : ApprovalError E
  not_claimed : E → ApprovalError E

abbrev pub respond_pending :
    {A E : Type 0} → ℕ → Bool → A ⊎ E → ApprovalBroker → ApprovalBroker × (A ⊎ ApprovalError E)
respond_pending id approved (inr error) b = (b, inr (not_claimed error))
respond_pending id approved (inl claimed) b = (
  record b {
    pending = set id none b.pending;
    waiter = set id (send approved (b.waiter id)) b.waiter;
  },
  if is_waiting (b.waiter id) then inl claimed else inr execution_gone,
)

abbrev pub respond_if :
    {A E : Type 0}
    → Option PendingApproval
    → ℕ
    → Bool
    → A ⊎ E
    → ApprovalBroker
    → ApprovalBroker × (A ⊎ ApprovalError E)
respond_if none id approved claim b = (b, inr not_pending)
respond_if (some p) id approved claim b = respond_pending id approved claim b

-- `respond_claimed`: `claim` is what the store answers.
unfoldable pub respond_claimed :
    {A E : Type 0} → ℕ → Bool → A ⊎ E → ApprovalBroker → ApprovalBroker × (A ⊎ ApprovalError E)
respond_claimed id approved claim b = respond_if (b.pending id) id approved claim b

abbrev pub in_session : Option String → String → Bool
in_session none session = false
in_session (some own) session = str_eq own session

abbrev pub matches : String → RequestId → Option PendingApproval → Bool
matches session request_id none = false
matches session request_id (some p) =
    request_eq p.request_id request_id && in_session p.session_id session

-- `cancel_request_in_session`
unfoldable pub cancel_request_in_session : String → RequestId → ApprovalBroker → ApprovalBroker
cancel_request_in_session session request_id b = record b {
  pending = λ id. if matches session request_id (b.pending id) then none else b.pending id;
  waiter = λ id.
      if matches session request_id (b.pending id) then send false (b.waiter id) else b.waiter id;
}

-- The execution that asked is stopped while it waits.
abbrev pub drop_waiter : Waiter → Waiter
drop_waiter waiting = gone
drop_waiter other = other

unfoldable pub stop_waiting : ℕ → ApprovalBroker → ApprovalBroker
stop_waiting id b = record b { waiter = set id (drop_waiter (b.waiter id)) b.waiter }
