-- ===== src/StartUp/Agent/Tests.antt =====
-- A task on the registry of runtime/src/main.rs, over a server that first names the echo tool and then has
-- an answer, and the theorem at it. The world is the time in nanoseconds.
use xola.Base.{
  ℕ, ◌+◌, All, ◌≡◌, refl, true, false, Option, none, some, String, [], ◌∷◌, Exit, ok, err, pos,
  Duration, from_secs, ltb, if◌then◌else◌,
}
use xola.Base.Dict.{get, insert, contains_key}
use xola.Base.Http.{Http}
use xola.Base.Text.{len, to_decimal, ◌<>◌}
use xola.Reliability.CircuitBreaker
use xola.Reliability.CircuitBreaker.{can_execute, record_success}
use xola.Reliability.LoopDetector.{
  is_looping, record_call, count_all, count_one, first_repeated, hash_call,
}
use xola.Memory.ShortTerm
use xola.Memory.ShortTerm.{push, evict, needs_summarization}
use xola.Tools.Registry
use xola.Tools.Registry.{
  checked, ToolRegistry, register, execute_with_timeout, validate_input, truncate_text,
}
use xola.Tools.TimeoutConfig
use xola.Tools.TimeoutConfig.{get_timeout}
use xola.Tools.SampleJson.{Sample, sample_json, str, null}
use xola.Tools.SampleDaemon.{in_time, in_time-some, daemon}
use xola.Tools.Mock.{mock_execute}
use xola.Memory.EpisodicLog.{success, step_success}
use xola.Ipc.{ReasonResponse}
use xola.Ipc.Client.{Wire, ipc_client}
use xola.Planning.Config.{default_plan}
use xola.Planning.Executor.Task.{TaskResult, PlanExecutor, Task, Run}
use xola.Planning.Executor.Messages.{estimate_tokens, record_episode}
use xola.Planning.Executor.React.{execute, start_task}
use xola.Planning.Executor.Parallel.{Libraries}
use xola.Planning.Executor.Sample.{iteration}
use xola.StartUp.{start_up, valid_input}
use xola.StartUp.Ready.{registered}
use xola.StartUp.Agent.{IsRun, agent, agent-IsRun}

abbrev clock : ℕ → Duration
clock w = w

abbrev no_variable : String → ℕ → Option String
no_variable name w = none

-- For the first two seconds, the server has no answer, and so names the echo tool.
abbrev said : ℕ → Sample
said w = if ltb w (from_secs 2) then null else str "answer"

abbrev server : Http Sample ℕ
server = record {
  get = λ url w. (err "no route", w);
  post = λ url headers body w. (
    ok (record {
      status = 200;
      is_success = true;
      canonical_reason = none;
      content_length = none;
      text = λ u. (ok "", u);
      json = λ u. (ok (said u), u + from_secs 1);
    }),
    w + from_secs 1,
  );
}

abbrev response : Sample → Exit String (ReasonResponse Sample)
response null = ok (record {
  thought = "I need the time.";
  action = some "mock_echo";
  action_input = valid_input sample_json;
  is_final = false;
  final_answer = none;
})
response (str s) = ok (record {
  thought = "I have it.";
  action = none;
  action_input = null;
  is_final = true;
  final_answer = some s;
})
response v = err "expected a string"

abbrev wire : Wire Sample ℕ
wire = record {
  reason_body = λ request. str request.task_goal;
  embed_body = λ request. str request.text;
  summarize_body = λ request. null;
  reason_response = response;
  embed_response = λ value. err "missing field `vector`";
  summarize_response = λ value. err "missing field `summary`";
}

abbrev libraries : Libraries Sample ℕ
libraries = record {
  host = record {
    to_string = λ v. "{}";
    schema_entry = λ name description schema. schema;
    check = λ schema input. checked [];
    clock = clock;
    timeout = in_time;
    timeout_some = in_time-some;
  };
  hashing = record { to_string = λ v. some "{}"; finish = λ texts. 7 };
  iteration = iteration;
  to_string_pretty = λ v. some "{}";
  message_entry = λ role content token_count. str content;
  instant = clock;
  select = λ limit inner t. none;
}

abbrev started : ToolRegistry Sample ℕ
started = registered sample_json server no_variable clock (daemon (pos 0))

started_up : start_up sample_json server no_variable clock (daemon (pos 0)) ≡ ok started
unfolding start_up register get insert contains_key Registry.new
started_up = refl

abbrev over_http : PlanExecutor Sample ℕ
over_http =
    agent sample_json server no_variable clock (daemon (pos 0)) libraries wire
      "http://127.0.0.1:8001" TimeoutConfig.default_config default_plan

abbrev task : Run (Task Sample ℕ) (TaskResult Sample)
task = execute over_http "What time is it?" started 0

abbrev end_of : Run (Task Sample ℕ) (TaskResult Sample) → Task Sample ℕ
end_of none = start_task over_http started 0
end_of (some (e, t)) = t

abbrev result : TaskResult Sample
result = record {
  outcome = success;
  final_answer = some "answer";
  steps = step_success "mock_echo" (valid_input sample_json) ∷ [];
  duration_ms = 4_000;
  iterations = 2;
  total_replans = 0;
}

answered : task ≡ some (ok result, end_of task)
unfolding execute estimate_tokens record_episode register Registry.new insert contains_key get
    CircuitBreaker.new ShortTerm.new push evict needs_summarization len is_looping record_call
    hash_call count_all count_one first_repeated get_timeout execute_with_timeout can_execute
    record_success mock_execute ipc_client truncate_text validate_input to_decimal ◌<>◌
answered = refl

agent-IsRun_example :
    All
      (λ s. s.success ≡ true → IsRun sample_json server no_variable clock (daemon (pos 0)) s)
      result.steps
agent-IsRun_example =
    agent-IsRun sample_json server no_variable clock (daemon (pos 0)) libraries wire
      "http://127.0.0.1:8001" TimeoutConfig.default_config default_plan "What time is it?" started 0
      result (end_of task) started_up answered
