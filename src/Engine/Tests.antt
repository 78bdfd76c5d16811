-- ===== src/Engine/Tests.antt =====
-- Runs of the model on small routers and retries (engine/routing.go, engine/retry.go).
use aat.Base.{ℕ, List, [], ◌∷◌, Bool, true, false, if◌then◌else◌, ◌==◌, none, some, ok, ◌≡◌, refl}
use aat.Base.Text.{Text, codes, text_eq}
use aat.Engine.Routing.{
  Config, Router, ResolvedOverride, Executors, add_override, resolve, executor_for,
  add_url_override, inherited_route, resolve_value_override, retarget, is_glob_pattern,
  is_grpc_target, lookup, first_of, exact_value, glob_value,
}
use aat.Engine.Routing.Laws.{resolve-add_override}
use aat.Engine.Routing.Values.{when, last_given, resolve_value_override-last}
use aat.Engine.Failure.{RetryFailure, ExpectedStatus, transient}
use aat.Engine.Retry.{
  StepResult, Sending, only, rate_limit_retry, classify_step_result, retry_result,
  execute_step_with_retry,
}
use aat.Engine.Retry.Laws.{Kept, retry_result-counts}
use aat.Engine.Retry.Policy.{execute_step_with_retry-expected}

-- A pattern that is one `*` matches every name; executors are the texts of their targets.
abbrev star_match : Text → Text → Bool
star_match p name = text_eq p (codes "*")

abbrev by_target : Executors Text Text
by_target = record { new_http = λ t. t; no_descriptors = λ t. t }

abbrev home : Config
home = record {
  base_url = codes "http://home";
  headers = (codes "A", codes "1") ∷ [];
  protected = (codes "Auth", codes "secret") ∷ [];
}

-- One glob override, and values for every node and for `pay`.
abbrev router : Router Text ℕ ℕ Text
router = record {
  default_exec = codes "http://home";
  default_config = some home;
  factory = none;
  overrides =
      record {
        pattern = codes "*";
        is_glob = true;
        executor = codes "http://all";
        config = some home;
        path_rewrite = none;
      }
      ∷ [];
  value_overrides =
      record {
        pattern = codes "pay";
        is_glob = false;
        values = (codes "k", 2) ∷ [];
        expect_failure = none;
      }
      ∷ record {
        pattern = codes "*";
        is_glob = true;
        values = (codes "k", 1) ∷ [];
        expect_failure = some 404;
      }
      ∷ [];
}

resolve-add_override_example :
    resolve star_match
      (add_override router (codes "pay") (codes "http://pay") none none)
      (codes "pay")
    ≡ (codes "http://pay", none, none)
unfolding is_glob_pattern
resolve-add_override_example =
    resolve-add_override star_match router (codes "pay") (codes "pay") (codes "http://pay") none
      none

abbrev only_values : ResolvedOverride ℕ ℕ
only_values = record {
  pattern = codes "pay";
  routes = false;
  api_config = home;
  path_rewrite = none;
  values = (codes "k", 3) ∷ [];
  expect_failure = none;
}

abbrev moved : Router Text ℕ ℕ Text
moved =
    add_override router (codes "pay") (codes "http://new")
      (some (retarget (codes "http://new") (some home))) none

is_exact : is_glob_pattern (codes "pay") ≡ false
unfolding is_glob_pattern
is_exact = refl

url_test :
    add_url_override star_match by_target router (codes "pay") (codes "http://new") ≡ ok moved
unfolding add_url_override executor_for is_grpc_target inherited_route is_glob_pattern resolve
url_test = refl

resolve_value_override-last_example :
    (lookup (codes "k") ((resolve_value_override star_match router (codes "pay")).0)
      ≡ first_of
          (last_given
            (λ e. when (exact_value (codes "pay") e) (lookup (codes "k") (e.values)))
            (router.value_overrides))
          (last_given
            (λ e. when (glob_value star_match (codes "pay") e) (lookup (codes "k") (e.values)))
            (router.value_overrides)))
    × ((resolve_value_override star_match router (codes "pay")).1
        ≡ first_of
            (last_given
              (λ e. when (exact_value (codes "pay") e) (e.expect_failure))
              (router.value_overrides))
            (last_given
              (λ e. when (glob_value star_match (codes "pay") e) (e.expect_failure))
              (router.value_overrides)))
resolve_value_override-last_example =
    resolve_value_override-last star_match router (codes "pay") (codes "k")

-- A request that answers with a status, and one that fails twice and then succeeds.
abbrev answer : ℕ → StepResult ℕ
answer status = record {
  rest = 0;
  error = none;
  status_code = status;
  body_error = none;
  response = some [];
  error_class = none;
  retry_count = 0;
  retried_on = [];
}

abbrev network : Sending ℕ
network = record {
  again = λ n. answer (if n == 1 then 429 else 200);
  cancelled = λ n. false;
  cancelled_waiting = λ n. false;
  retry_after = λ r. some 1000000000;
  backoff = λ n. 500000000;
}

retry_result-counts_example :
    Kept 3 0 (retry_result network (answer 429) rate_limit_retry false classify_step_result)
retry_result-counts_example =
    retry_result-counts network (answer 429) rate_limit_retry false classify_step_result refl refl

abbrev limited : RetryFailure
limited = record { category = transient; status = 429; grpc_name = [] }

abbrev not_found : List ExpectedStatus
not_found = record { code = 404; name = []; class = 0 } ∷ []

execute_step_with_retry-expected_example :
    execute_step_with_retry network
      (record { expect_failure = some not_found; retry = none })
      (answer 404)
    ≡ only (answer 404)
execute_step_with_retry-expected_example =
    execute_step_with_retry-expected network (answer 404) not_found none refl
