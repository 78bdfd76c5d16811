-- ===== src/Engine/Run/Cleaned.antt =====
-- The cleanup of a run (`runCleanup` and `pairedCleanupNodes` of engine/engine.go).
use aat.Base.{suc, List, [], ◌∷◌, length, arith}
use aat.Graph.Names.{Name, add_name, IsSetOf}
use aat.Graph.Names.Sets.{add-IsSetOf}
use aat.Graph.Chain.{add_names}
use aat.Engine.KnownIssue.{RunOutcome}
use aat.Engine.Cleanup.{filter}
use aat.Engine.Cleanup.Chain.{CleanupEnv, run_entries}
use aat.Engine.Cleanup.Order.{Ends, Added, run_entries-Ends, and_then-Ends, run_cleanup_stack-Added}
use aat.Engine.Execute.{Engine}
use aat.Engine.Run.{Vars}
use aat.Engine.Run.Cleaning.{
  Plan, ids_of, new_cleanup_run, run_cleanup, cleanup_env, allow_cleanup, paired_cleanup_nodes,
  main_steps, plan_entries,
}

add_names-IsSetOf : (xs ys : List Name) → IsSetOf ys → IsSetOf (add_names xs ys)
unfolding add_names
add_names-IsSetOf [] ys h = h
add_names-IsSetOf (x ∷ xs) ys h = add_names-IsSetOf xs (add_name x ys) (add-IsSetOf x ys h)

-- The cleanup of a run comes to its end; the IDs of its steps differ from each other and from those
-- of the plan's main and verification steps.
pub run_cleanup-Added :
    {V X E B : Type 0} (e : Engine V X E B) (p : Plan) (v : Vars V) (outcome : RunOutcome)
    → Ends (Added (new_cleanup_run e p)) (run_cleanup e p v outcome)
unfolding run_cleanup
run_cleanup-Added {V} e p v outcome =
    and_then-Ends env (new_cleanup_run e p)
      (run_entries env (suc (length e.nodes)) (plan_entries e paired outcome p.cleanup)
        (new_cleanup_run e p))
      _
      (λ st once.
        run_cleanup_stack-Added env
          (filter (λ c. allow_cleanup e paired outcome p.cleanup c.node_name) v.stack) st once)
      (run_entries-Ends env (suc (length e.nodes)) (plan_entries e paired outcome p.cleanup)
        (new_cleanup_run e p) (omega arith)
        (add_names-IsSetOf (ids_of p.verification) (add_names (ids_of p.steps) [])
          (add_names-IsSetOf (ids_of p.steps) [] (λ v. omega arith))))
  where
    paired : List Name
    paired = paired_cleanup_nodes e p.steps []

    env : CleanupEnv V
    env =
        cleanup_env e (allow_cleanup e paired outcome p.cleanup)
          (main_steps e (ids_of p.steps) v.results) v.state
