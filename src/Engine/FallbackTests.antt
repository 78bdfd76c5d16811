-- ===== src/Engine/FallbackTests.antt =====
-- The theorems on fallbacks at a pool of three values, and tests.
use aat.Base.{ℕ, [], ◌∷◌, false, none, some, ltb, ◌==◌, if◌then◌else◌, ◌≡◌, refl, ok, err}
use aat.Base.Text.{codes}
use aat.Predicate.Syntax.{Floats}
use aat.Predicate.Eval.{eval_text, parse, eval_predicate, eval}
use aat.Predicate.Lexer.{tokenize}
use aat.Predicate.Parser.{parse_tokens}
use aat.Predicate.Value.{Value, text}
use aat.Engine.Fallback.{
  Calls, StepValue, ValueResolution, from_pool, resolution, resolve_with_fallback, pool_exhausted,
  done, note_default_origin,
}
use aat.Engine.Fallback.Passing.{
  IsExplained, IsPassing, resolve_with_fallback-IsExplained, resolve_with_fallback-IsPassing,
}

abbrev units : Floats
units = record {
  Float = ℕ;
  parse_float = λ s. none;
  format_float = λ x. [];
  of_int = λ negative x. if negative then 0 else x;
  feq = λ a b. a == b;
  flt = λ a b. ltb a b;
}

abbrev calls : Calls (Value ℕ)
calls = record {
  contains_expr = λ v. false;
  eval_expr = λ v. some v;
  shuffle = λ l. l;
  is_done = λ pi. 2 == pi;
}

abbrev airports : StepValue (Value ℕ)
airports = record {
  default = some (text (codes "DEN"));
  pool = text (codes "DEN") ∷ text (codes "SFO") ∷ text (codes "JFK") ∷ [];
  pool_ref = codes "airports.us";
  pool_strategy = none;
  constraint = codes "value != 'DEN'";
  origin = codes "graph";
  layer = [];
}

abbrev second : ValueResolution (Value ℕ)
second =
    from_pool units calls (codes "origin") airports 1 (text (codes "SFO")) (text (codes "SFO"))
      (text (codes "DEN") ∷ text (codes "DEN") ∷ [])

found_second : resolve_with_fallback units calls (codes "origin") airports [] ≡ ok second
unfolding resolve_with_fallback eval_text parse tokenize parse_tokens eval_predicate eval
found_second = refl

stops_when_done :
    resolve_with_fallback units calls
      (codes "origin")
      (record airports { constraint = codes "value == 'JFK'" })
      []
    ≡ err done
unfolding resolve_with_fallback eval_text parse tokenize parse_tokens eval_predicate eval
stops_when_done = refl

misses_all :
    resolve_with_fallback units calls
      (codes "origin")
      (record airports { pool = text (codes "DEN") ∷ [] })
      []
    ≡ err pool_exhausted
unfolding resolve_with_fallback eval_text parse tokenize parse_tokens eval_predicate eval
misses_all = refl

from_graph :
    (note_default_origin
      (resolution units calls (codes "origin") airports (text []) (text []))
      airports).source
    ≡ codes "graph_default"
unfolding note_default_origin
from_graph = refl

resolve_with_fallback-IsExplained_example :
    IsExplained units calls
      (codes "origin")
      airports
      []
      (resolve_with_fallback units calls (codes "origin") airports [])
resolve_with_fallback-IsExplained_example =
    resolve_with_fallback-IsExplained units calls (codes "origin") airports []

resolve_with_fallback-IsPassing_example : IsPassing units calls (codes "origin") airports [] second
resolve_with_fallback-IsPassing_example =
    resolve_with_fallback-IsPassing units calls (codes "origin") airports [] (λ P l h. h) second
      found_second
