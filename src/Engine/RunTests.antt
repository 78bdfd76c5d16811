-- ===== src/Engine/RunTests.antt =====
-- Runs of the model on a small plan: a step that creates, one that fails under a known issue, and
-- one that expects to fail (engine/engine.go, engine/cleanup.go).
use native.Mathlib.Omega.{arith}
use aat.Base.{
  ℕ, List, [], ◌∷◌, map, Bool, true, false, if◌then◌else◌, ◌==◌, Option, none, some, ◌≡◌, refl,
  length,
}
use aat.Base.Text.{Text, codes, text_eq}
use aat.Graph.Names.{add_name, Name, IsSetOf}
use aat.Graph.Chain.{add_names}
use aat.Engine.Routing.{merge_matching, resolve_value_override}
use aat.Engine.Failure.{
  status_category, timeout, atoi, retry_rule_matches, should_retry, classify_status_code, expects,
  any_expects, ExpectedStatus,
}
use aat.Engine.Retry.{
  retry_loop, classify_step_result, unexpected_rate_limit, retry_result, retry_policy,
  execute_step_with_retry,
}
use aat.Engine.State.{
  store_outputs, Values, store_all, new_run_state, get_output, executed_steps, in_values,
  last_stored, store_all-history,
}
use aat.Engine.KnownIssue.{RunOutcome, passed, KnownIssue}
use aat.Engine.Steps.{Node, Step, CleanupPairing}
use aat.Engine.Cleanup.{free_id, filter, CleanupEntry, CleanupRun, push, next_id}
use aat.Engine.Cleanup.Skip.{
  find_release, after_step, releasing_step, resolve_cleanup_inputs, resolve_all, cleanup_skip,
}
use aat.Engine.Cleanup.Chain.{
  execute_cleanup_entry, run_entries, CleanupEnv, and_then, run_cleanup_chain, run_cleanup_stack,
}
use aat.Engine.Cleanup.Order.{step_ids, Ends, Added, run_cleanup_stack-push}
use aat.Engine.Repeat.{Requests}
use aat.Engine.Repeat.Loop.{execute_step_repeated, run_repeat, repeat_loop}
use aat.Engine.Execute.{
  unresolved, failed_result, execute_step_with, execute_step_with_tracking, Engine, replied,
  resolved,
}
use aat.Engine.Run.{conclude_expected, conclude_plain, settle, run_node, Vars, start, run_loop}
use aat.Engine.Run.Finish.{RunResult, end_run, run}
use aat.Engine.Run.Verify.{run_verification}
use aat.Engine.Run.Cleaning.{
  ids_of, Plan, paired_cleanup_nodes, pair_chain, allow_cleanup, new_cleanup_run, run_cleanup,
  cleanup_env,
}
use aat.Engine.Run.Kept.{run_loop-Keeps}
use aat.Engine.Run.Owed.{OnExit, Keeps}
use aat.Engine.Run.Paired.{IsClosed, Leading, paired_cleanup_nodes-IsClosed}
use aat.Engine.Run.Sequence.{IsPrefix, run_loop-IsPrefix}
use aat.Engine.Run.Cleaned.{run_cleanup-Added}

abbrev no_cleanup : CleanupPairing
no_cleanup = record { node = []; when = []; released_by = [] }

abbrev create : Node
create = record {
  name = codes "create";
  inputs = [];
  cleanup = record { node = codes "remove"; when = []; released_by = [] };
}

abbrev remove : Node
remove = record {
  name = codes "remove";
  inputs = record { name = codes "id"; type = codes "int" } ∷ [];
  cleanup = no_cleanup;
}

abbrev read : Node
read = record { name = codes "read"; inputs = []; cleanup = no_cleanup }

abbrev step_of : Name → Name → Option KnownIssue → Option (List ExpectedStatus) → Step
step_of id node ki expected = record {
  step_id = id;
  node = node;
  values = [];
  retry = none;
  expect_failure = expected;
  known_issue = ki;
  repeat = none;
  has_assertions = false;
}

abbrev known : KnownIssue
known = record { until = some 10; reason = codes "bug"; url = [] }

abbrev missing_expected : List ExpectedStatus
missing_expected = record { code = 404; name = []; class = 0 } ∷ []

abbrev steps : List Step
steps =
    step_of (codes "create") (codes "create") none none
    ∷ step_of (codes "gone") (codes "read") none (some missing_expected)
    ∷ step_of (codes "broken") (codes "read") (some known) none
    ∷ []

abbrev answer : Step → ℕ
answer step =
    if text_eq step.step_id (codes "gone")
    then 404
    else if text_eq step.step_id (codes "broken")
    then 500
    else 200

abbrev polling_none : Requests ℕ
polling_none = record {
  request = λ n inputs. failed_result (step_of [] [] none none) inputs timeout;
  until = λ inputs outputs. some true;
  is_null = λ v. false;
  is_blank = λ v. false;
  print = λ v. [];
  gather = λ old v. v;
  retry_after = λ r. none;
  elapsed = λ n. 0;
  interrupted = λ n. false;
  assertions = λ r. none;
}

abbrev shop : Engine ℕ Text Text Text
shop = record {
  nodes = (codes "create", create) ∷ (codes "remove", remove) ∷ (codes "read", read) ∷ [];
  router = record {
    default_exec = [];
    default_config = none;
    factory = none;
    overrides = [];
    value_overrides = [];
  };
  glob_match = text_eq;
  oas_strict = true;
  continue_on_assertion_failure = false;
  stop_after_step = [];
  plan_issue = none;
  today = 7;
  resolve_inputs = λ step node state k n. resolved [];
  send =
      λ step node inputs k n. replied (record { status = answer step; grpc_name = []; body = [] });
  detect_body_error = λ node body. none;
  extract_outputs = λ node inputs reply. some ((codes "id", 5) ∷ []);
  count_oas_errors = λ step node reply. 0;
  assertions = λ step node state reply outputs. none;
  cancelled = λ step k n. false;
  cancelled_waiting = λ step k n. false;
  polling = λ step node state inputs. polling_none;
  retry_after = λ r. none;
  backoff = λ n. n;
  done_before = λ step. false;
  done_after = λ step. false;
  done_verifying = false;
  send_cleanup =
      λ entry node inputs n. replied (record { status = 204; grpc_name = []; body = [] });
  cleanup_cancelled = λ entry n. false;
  cleanup_cancelled_waiting = λ entry n. false;
  count_cleanup_oas_errors = λ node reply. 0;
  same_value = λ x y type. x == y;
  holds = λ text values. some true;
}

run_loop-Keeps_example : OnExit (Keeps shop.nodes) (run_loop shop steps start)
run_loop-Keeps_example = run_loop-Keeps shop steps

run_loop-IsPrefix_example :
    OnExit (λ v. IsPrefix (step_ids v.results) (ids_of steps)) (run_loop shop steps start)
run_loop-IsPrefix_example = run_loop-IsPrefix shop steps

abbrev plan : Plan
plan = record { steps = steps; sorted = steps; verification = []; cleanup = [] }

abbrev entry : CleanupEntry
entry = record { node_name = codes "remove"; for_node = codes "create"; for_step = codes "create" }

abbrev summary : RunResult ℕ → RunOutcome × Bool × ℕ × ℕ
summary r = (r.outcome, r.ended_early, length r.steps, length r.cleanup_results)

abbrev left : Vars ℕ
left = record start { stack = entry ∷ entry ∷ [] }

run_cleanup-Added_example :
    Ends (Added (new_cleanup_run shop plan)) (run_cleanup shop plan left passed)
run_cleanup-Added_example = run_cleanup-Added shop plan left passed

abbrev env : CleanupEnv ℕ
env = cleanup_env shop (λ name. true) [] new_run_state

abbrev fresh : CleanupRun
fresh = record { ids = codes "remove" ∷ []; skips = [] }

run_cleanup_stack-push_example :
    run_cleanup_stack env (push entry (entry ∷ [])) fresh
    ≡ and_then
        (run_cleanup_chain env 4 entry (codes "create") [] fresh)
        (run_cleanup_stack env (entry ∷ []))
run_cleanup_stack-push_example = run_cleanup_stack-push env entry (entry ∷ []) fresh

remove_once : IsSetOf (codes "remove" ∷ [])
remove_once v = ground arith

abbrev stored : List (Name × Values ℕ)
stored = (codes "a", (codes "x", 1) ∷ []) ∷ (codes "b", []) ∷ (codes "a", (codes "x", 2) ∷ []) ∷ []

store_all-history_example :
    (executed_steps (store_all stored new_run_state) ≡ add_names (map (λ e. e.0) stored) [])
    × IsSetOf (executed_steps (store_all stored new_run_state))
    × (get_output (store_all stored new_run_state) (codes "a") (codes "x")
        ≡ in_values (codes "x") (last_stored (codes "a") stored none))
store_all-history_example = store_all-history stored (codes "a") (codes "x")

run_test : summary (run shop plan) ≡ (passed, true, 3, 1)
unfolding run run_loop run_node execute_step_with_tracking execute_step_with settle conclude_plain
    conclude_expected any_expects expects execute_step_with_retry retry_policy retry_result
    unexpected_rate_limit classify_step_result classify_status_code store_outputs
    resolve_value_override end_run run_cleanup paired_cleanup_nodes pair_chain add_names add_name
    allow_cleanup filter run_entries run_cleanup_stack run_verification run_cleanup_chain
    resolve_cleanup_inputs resolve_all cleanup_skip execute_cleanup_entry next_id free_id
    merge_matching retry_loop should_retry retry_rule_matches atoi releasing_step after_step
    find_release
run_test = refl

paired_cleanup_nodes-IsClosed_example :
    IsClosed shop.nodes (paired_cleanup_nodes shop steps [])
    × Leading shop.nodes steps (paired_cleanup_nodes shop steps [])
paired_cleanup_nodes-IsClosed_example = paired_cleanup_nodes-IsClosed shop steps

paired : paired_cleanup_nodes shop steps [] ≡ codes "remove" ∷ []
unfolding paired_cleanup_nodes pair_chain add_name
paired = refl

-- The first resolution fails, and the retry resolves again.
abbrev slow_start : Engine ℕ Text Text Text
slow_start = record shop {
  resolve_inputs = λ step node state k n.
      if n == 0 then unresolved timeout [] else resolved ((codes "id", 3) ∷ []);
}

abbrev retried_step : Step
retried_step = record (step_of (codes "r") (codes "read") none none) {
  retry = some (record { max_retries = 1; on = []; fail_on = [] });
}

resolves_again :
    ((execute_step_with_tracking slow_start retried_step read new_run_state).0.status_code ≡ 200)
    × ((execute_step_with_tracking slow_start retried_step read new_run_state).0.rest.inputs
        ≡ (codes "id", 3) ∷ [])
unfolding execute_step_with_tracking execute_step_with_retry retry_policy retry_result
    classify_step_result retry_loop should_retry status_category execute_step_with
    classify_status_code resolve_value_override merge_matching retry_rule_matches atoi
resolves_again = (refl, refl)

-- A repeated step whose condition holds for the first response.
abbrev repeated_step : Step
repeated_step = record (step_of (codes "r") (codes "read") none none) {
  repeat =
      some (record {
        has_until = true;
        next = [];
        collect = [];
        interval = 1;
        limit = 3;
        timeout = 0;
      });
}

repeats_once :
    (execute_step_with_tracking shop repeated_step read new_run_state).0.status_code ≡ 200
unfolding execute_step_with_tracking execute_step_with_retry retry_policy retry_result
    classify_step_result execute_step_with classify_status_code resolve_value_override
    merge_matching execute_step_repeated run_repeat repeat_loop
repeats_once = refl
