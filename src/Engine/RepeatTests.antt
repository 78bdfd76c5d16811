-- ===== src/Engine/RepeatTests.antt =====
-- Runs of the model on a listing of three pages and on a job that is polled (engine/repeat.go).
use aat.Base.{
  ℕ, ◌+◌, [], ◌∷◌, true, false, if◌then◌else◌, ◌==◌, leb, none, some, or_else, ◌≡◌, refl, ◌⊎◌,
  length,
}
use aat.Base.Text.{codes}
use aat.Base.Decimal.{decimal_digits, decimal}
use aat.Graph.Names.{sort_strings, IsSetOf}
use aat.Engine.Routing.{lookup}
use aat.Engine.State.{Values}
use aat.Engine.Steps.{RepeatConfig, Result}
use aat.Engine.Repeat.{
  collect_outputs, sent_cursors, cursor_parts, cursor_key, cursor_values, stop_until,
  stop_exhausted, Requests,
}
use aat.Engine.Repeat.Loop.{repeat_loop, run_repeat, execute_step_repeated}
use aat.Engine.Repeat.Laws.{
  Counted, followed, run_repeat-Counted, run_repeat-IsSetOf, execute_step_repeated-passes,
}

-- The n-th request gives the cursor of the next page, up to the third.
abbrev page : ℕ → Values ℕ → Result ℕ
page n inputs = record {
  rest = record {
    step_id = codes "list";
    node = codes "list";
    cleanup_for = [];
    inputs = inputs;
    outputs = some ((codes "next", if leb 3 n then 0 else n) ∷ (codes "total", 2) ∷ []);
    validation = none;
    oas_errors = 0;
    expect_failure = none;
    known_issue = none;
  };
  error = none;
  status_code = 200;
  body_error = none;
  response = some [];
  error_class = none;
  retry_count = 1;
  retried_on = [];
}

abbrev requests : Requests ℕ
requests = record {
  request = page;
  until = λ inputs outputs. some false;
  is_null = λ v. false;
  is_blank = λ v. v == 0;
  print = decimal;
  gather = λ old v. or_else old 0 + v;
  retry_after = λ r. none;
  elapsed = λ n. n;
  interrupted = λ n. false;
  assertions = λ r. some true;
}

abbrev paging : RepeatConfig
paging = record {
  has_until = false;
  next = (codes "after", codes "next") ∷ [];
  collect = codes "total" ∷ [];
  interval = 0;
  limit = 5;
  timeout = 0;
}

run_repeat-Counted_example : Counted 5 1 (run_repeat requests paging [])
run_repeat-Counted_example = run_repeat-Counted requests paging []

run_repeat-IsSetOf_example :
    IsSetOf (followed requests paging (run_repeat requests paging []).iterations)
run_repeat-IsSetOf_example = run_repeat-IsSetOf requests paging [] refl

all_pages : (execute_step_repeated requests paging []).rest.validation ≡ some true
unfolding execute_step_repeated run_repeat repeat_loop cursor_values cursor_key cursor_parts
    sort_strings sent_cursors decimal decimal_digits
all_pages = refl

execute_step_repeated-passes_example :
    ((run_repeat requests paging []).stop ≡ stop_until)
    ⊎ ((run_repeat requests paging []).stop ≡ stop_exhausted)
execute_step_repeated-passes_example =
    execute_step_repeated-passes requests paging [] (λ n inputs. refl) all_pages

pages_test :
    (length (run_repeat requests paging []).iterations ≡ 3)
    × ((execute_step_repeated requests paging []).retry_count ≡ 3)
    × (lookup (codes "total") (or_else (execute_step_repeated requests paging []).rest.outputs [])
        ≡ some 6)
unfolding execute_step_repeated run_repeat repeat_loop cursor_values cursor_key cursor_parts
    sort_strings sent_cursors decimal decimal_digits collect_outputs
pages_test = (refl, refl, refl)
