-- ===== src/Examples/Turn.antt =====
-- The theorems on requests and turns at a model that fails once and then answers.
use dtcoder_test.Prelude.{
  ℕ, suc, ◌+◌, ◌*◌, ◌≤◌, ◌≡◌, ◌≢◌, refl, ◌⊎◌, inl, inr, String, Bool, true, false, Option, none,
  some, List, [], ◌∷◌, length, if◌then◌else◌, u64_max, cap_at, arith, ◌==◌,
}
use dtcoder_test.Prelude.Dict.{lookup}
use dtcoder_test.Provider.Error.{rate_limit}
use dtcoder_test.Provider.Retry
use dtcoder_test.Provider.Circuit.{CircuitBreaker, acquire}
use dtcoder_test.Provider.Circuit
use dtcoder_test.Provider.Circuit.Probes.{IsFree}
use dtcoder_test.Assembler.{
  accept, response_started, protocol_done, text_delta, tool_call_started, tool_call_completed,
  Response, text_response, ToolCall,
}
use dtcoder_test.Messages.{Message, tool_result, assistant_tool_calls_with_thinking}
use dtcoder_test.Context.Compress.{ContextManager, Outside}
use dtcoder_test.Turn.Stream.{Request, completed, failed, receive, receive_all, request_model_once}
use dtcoder_test.Turn.Request.{World, exhausted, most_retries, request_model}
use dtcoder_test.Turn.Request.Bounds.{request_model-ends}
use dtcoder_test.Turn.Request.Replay.{IsReplayable, request_model-IsReplayable}
use dtcoder_test.Turn.Request.Returned.{EndsFree, request_model-EndsFree}
use dtcoder_test.Turn.Repeats.{ToolFingerprint, observe_all, trailing_run, observe_all-trailing_run}
use dtcoder_test.Turn.Waves.{collect, execute_in_waves}
use dtcoder_test.Turn.Waves.Order.{IsOrdered, execute_in_waves_lem}
use dtcoder_test.Turn.Rounds.{Engine}
use dtcoder_test.Turn.Rounds.Steps.{run_turn}
use dtcoder_test.Turn.Rounds.Bounds.{IsBounded, run_turn-IsBounded}
use dtcoder_test.Turn.Rounds.Paired.{EndsPaired, run_turn-EndsPaired}

abbrev parse : String → ℕ ⊎ String
parse s = inl 1

abbrev limited : Request
limited = record {
  before = (3, response_started) ∷ [];
  ending = failed rate_limit (some 10);
  after = [];
}

abbrev calling : Request
calling = record {
  before =
      (3, response_started)
      ∷ (4, tool_call_started "c1" "read")
      ∷ (5, tool_call_completed "c1")
      ∷ (6, protocol_done)
      ∷ [];
  ending = completed;
  after = [];
}

abbrev speaking : Request
speaking = record {
  before = (3, response_started) ∷ (4, text_delta "done") ∷ (6, protocol_done) ∷ [];
  ending = completed;
  after = [];
}

abbrev world : {M : Type 0} → Bool → Request → World M
world cancel answer = record {
  ask = λ n messages. if n == 0 then limited else answer;
  acquired_at = λ n. 40000;
  recorded_at = λ n. 40001;
  cancelled_at_start = false;
  cancelled_before = λ n. cancel;
  cancelled_after = λ n. false;
  compact = λ n messages. none;
}

abbrev keys : List String
keys = "a" ∷ []

abbrev question : String
question = "hello"

request_model-IsReplayable_example :
    IsReplayable
      (request_model parse 0
        (world false speaking)
        Retry.default
        keys
        Circuit.default
        question).0.asked
request_model-IsReplayable_example =
    request_model-IsReplayable parse 0 (world false speaking) Retry.default keys Circuit.default
      question

request_model-ends_example :
    ((request_model parse 0 (world false speaking) Retry.default keys Circuit.default question).1
      ≢ exhausted)
    × (length
          (request_model parse 0
            (world false speaking)
            Retry.default
            keys
            Circuit.default
            question).0.asked
        ≤ length keys * (most_retries Retry.default + 1) + 1)
request_model-ends_example =
    request_model-ends parse 0 (world false speaking) Retry.default keys Circuit.default question

abbrev expired_breaker : CircuitBreaker
expired_breaker = record {
  entries = ("a", record { failures = 3; opened_at = some 0; probe_active = false }) ∷ [];
  open_duration = 30000;
}

expired-IsFree : IsFree "a" expired_breaker
unfolding lookup
expired-IsFree = refl

-- The request is given the probe, and its first attempt fails.
request_model-EndsFree_example :
    EndsFree
      (world false speaking)
      "a"
      (request_model parse 0 (world false speaking) Retry.default keys expired_breaker question)
request_model-EndsFree_example =
    request_model-EndsFree parse 0 (world false speaking) Retry.default "a" keys expired_breaker
      question expired-IsFree

abbrev print_of : ℕ → List ToolFingerprint
print_of n = record { tool_name = "read"; arguments = 1; result = n } ∷ []

observe_all-trailing_run_example :
    (observe_all (print_of 2 ∷ print_of 2 ∷ print_of 1 ∷ [])).count
    ≡ cap_at u64_max (trailing_run (print_of 2 ∷ print_of 2 ∷ print_of 1 ∷ []))
observe_all-trailing_run_example =
    observe_all-trailing_run (print_of 2 ∷ print_of 2 ∷ print_of 1 ∷ [])

abbrev numbers : List ℕ
numbers = 2 ∷ 2 ∷ 3 ∷ 2 ∷ []

abbrev is_two : ℕ → Bool
is_two n = n == 2

abbrev run_number : ℕ → ℕ → ℕ ⊎ String
run_number i n = if n == 3 then inr "failed" else inl (n + i)

execute_in_waves_lem_example :
    ((execute_in_waves is_two run_number (length numbers) 0 numbers).1
      ≡ collect is_two run_number 0 numbers)
    × IsOrdered is_two run_number 0 numbers
        ((execute_in_waves is_two run_number (length numbers) 0 numbers).0)
execute_in_waves_lem_example = execute_in_waves_lem is_two run_number 0 numbers

abbrev manager : ContextManager
manager = record {
  system_prompt = "help";
  project_rules = none;
  config = record {
    token_budget = 300;
    recent_messages = 1;
    mild_compression_percent = 60;
    strong_compression_percent = 85;
    summary_chunk_tokens = 100;
  };
}

abbrev outside : Outside ℕ
outside = record {
  messages_json = λ messages. [];
  calls_json = λ calls. [];
  summary_text = λ summary. "summary";
  environment = λ moment history. "main";
  ask = λ n source. inl (text_response "s");
}

-- A model that calls a tool in the first round and answers in the second.
abbrev engine : Engine ℕ
engine = record {
  parse = parse;
  empty_object = 0;
  arguments_text = λ arguments. [];
  cancelled_at_start = false;
  has_route = true;
  policy = Retry.default;
  keys = "a" ∷ [];
  round_limit = some 2;
  total_token_budget = some 1000;
  manager = manager;
  spec_tokens = 5;
  outside = λ round. outside;
  world = λ round. world false (if round == 1 then calling else speaking);
  measured = λ round. inl 10;
  admit_all = λ calls. none;
  is_read_only = λ name. true;
  execute = λ round i call. inl (record { content = "text"; transient_messages = [] });
  cancelled_while_executing = λ round. false;
  prepare_batch_error = λ round. none;
  start_tool_error = λ round i. none;
  finish_tool_error = λ round i. none;
  finish_batch_error = λ round. none;
  append_error = λ recorded. none;
  fingerprint_json = λ arguments. 0;
  fingerprint_text = λ content. 0;
}

run_turn-IsBounded_example : IsBounded engine 2 (run_turn engine 3 "read it" Circuit.default [])
run_turn-IsBounded_example =
    run_turn-IsBounded engine 2 "read it" Circuit.default [] refl (omega arith)

abbrev past_call : ToolCall ℕ
past_call = record { id = "c0"; name = "read"; arguments = 0 }

abbrev past : List (Message ℕ)
past = assistant_tool_calls_with_thinking (past_call ∷ []) none ∷ tool_result past_call "1" ∷ []

run_turn-EndsPaired_example : EndsPaired (run_turn engine 3 "read it" Circuit.default past)
run_turn-EndsPaired_example =
    run_turn-EndsPaired engine (λ round i c. refl) 3 "read it" Circuit.default past
      (refl, (refl, refl))

two_rounds : (run_turn engine 3 "read it" Circuit.default past).1 ≡ inl "done"
unfolding run_turn dtcoder_test.Turn.Rounds.Steps.run_rounds dtcoder_test.Context.Compress.prepare
    dtcoder_test.Context.Compress.estimate_message dtcoder_test.Context.Tokens.estimate_text_tokens
    request_model dtcoder_test.Turn.Request.try_candidates acquire lookup
    dtcoder_test.Turn.Request.try_candidate request_model_once Retry.decide receive_all receive
    accept Circuit.record_outcome dtcoder_test.Prelude.Dict.insert dtcoder_test.Assembler.finish
    dtcoder_test.Assembler.output_calls dtcoder_test.Context.Compress.compress_history
    dtcoder_test.Context.Compress.step_back dtcoder_test.Context.Summary.summarize_chunks
    dtcoder_test.Context.Summary.summarize_text dtcoder_test.Context.Tokens.split_from
    dtcoder_test.Prelude.Text.is_blank dtcoder_test.Turn.Rounds.Calls.record_results
    execute_in_waves
two_rounds = refl
