-- ===== src/Queue/Schedules.antt =====
-- What holds of every schedule of the pool of internal/queue/queue.go, from what holds of a step.
use mathlib.Core.Path.{subst₂}
use mcp_server_dynamodb_sage.Prelude.{◌≡◌, refl, List, [], ◌∷◌, ◌++◌}
use mcp_server_dynamodb_sage.Queue.{
  Pool, Seen, Action, Outcome, moved, blocked, panicked, step, seen_first, after_step, run,
}

-- A run of more than one step is a step and a run.
pub after_step_moved :
    (o : Outcome) (rest : Pool → Outcome) (r : Pool) (gs : List Seen)
    → after_step o rest ≡ moved r gs
    → (q : Pool) × (es fs : List Seen) × (o ≡ moved q es) × (rest q ≡ moved r fs) × (gs ≡ es ++ fs)
after_step_moved (moved q es) rest r gs h = seen (rest q) refl h
  where
    seen :
        (o : Outcome)
        → rest q ≡ o
        → seen_first es o ≡ moved r gs
        → (p : Pool) × (ds fs : List Seen) × (moved q es ≡ moved p ds)
          × (rest p ≡ moved r fs)
          × (gs ≡ ds ++ fs)
    seen (moved t fs) e g = (q, es, fs, refl, cc (e, g), cc (g))
    seen blocked e g = absurd cc
    seen panicked e g = absurd cc
after_step_moved blocked rest r gs h = absurd cc
after_step_moved panicked rest r gs h = absurd cc

-- A relation between two pools and what was seen between them, that holds of no step and is kept by
-- one, holds of every run.
module _ (R : Pool → List Seen → Pool → Type 0) (no_step : (p : Pool) → R p [] p)
    (first : (a : Action) (p q r : Pool) (es fs : List Seen)
      → step a p ≡ moved q es
      → R q fs r
      → R p (es ++ fs) r) where
  pub run_induction :
      (later : List Action) (p r : Pool) (gs : List Seen) → run later p ≡ moved r gs → R p gs r
  unfolding run
  run_induction [] p r gs h = subst₂ (R p) (cc (h)) (cc (h)) (no_step p)
  run_induction (a ∷ later) p r gs h =
      let (q, es, fs, one, others, whole) = after_step_moved (step a p) (run later) r gs h in
      rw whole (first a p q r es fs one (run_induction later q r fs others))
