-- ===== src/Goal/Runtime/Calls/Changes.antt =====
-- The operations of GoalRuntime (core/goal/runtime.py) that test a goal and save one change of it.
use learn_agent.Prelude.{
  ℕ, ◌≡◌, refl, String, false, not, Option, none, some, [], ◌∷◌, arith, ok, utc_now, strip,
  is_empty, value_error, prefix, strip_idem, leb, ℤ, at_least_one, at_least_one-pos, take_last,
  ◌++◌,
}
use learn_agent.Goal.Model.{
  Goal, BlockedReason, Continuation, active, blocked, cancelled, armed, disarmed, is_terminal,
}
use learn_agent.Goal.Runtime.{
  World, update_continuation, edit, attach_plan, resume, disarm, block, cancel, update_max_rounds,
  record_dropped_round, record_drop,
}
use learn_agent.Goal.Runtime.Soundness.{IsSound, IsConsistent, Loaded}
use learn_agent.Goal.Runtime.Calls.Steps.{
  Step, Written, changed-Written, simple, simple_twice, unless_terminal,
}

-- The continuation with one more dropped round.
abbrev dropped : ℕ → String → ℕ → String → Continuation → Continuation
dropped clock task round reason c = record c {
  dropped_rounds = take_last 20 (
      c.dropped_rounds
      ++ record { round = round; task_id = task; reason = reason; at = utc_now clock } ∷ []);
}

dropped-IsSound :
    (g : Goal) (c : Continuation) → IsSound g → IsSound (record g { continuation = c })
dropped-IsSound g c s = ground arith

pub record_drop-Written :
    (clock : ℕ) (id : String) (expected : Option ℕ) (w : World)
    → IsConsistent w.db
    → (g : Goal) (task : String) (round : ℕ) (reason : String) → Loaded id expected w g
    → is_terminal g.status ≡ false
    → Written id g
        (record_drop clock g task round reason w).0
        (record_drop clock g task round reason w).1
unfolding record_drop
record_drop-Written clock id expected w v g task round reason l live =
    changed-Written clock id expected "goal.round_dropped" w g
      (record g { continuation = dropped clock task round reason g.continuation }) v l live
      (record { key = refl; session = refl; version = refl; sound = dropped-IsSound g _ l.sound })

module _ (clock : ℕ) (id : String) (expected : Option ℕ) (w : World) (v : IsConsistent w.db)
    {g' : Goal} {w' : World} where
  pub update_continuation-Step :
      (c : Continuation)
      → update_continuation clock id expected w c ≡ ok (g', w')
      → Step id expected w g' w'
  unfolding update_continuation
  update_continuation-Step c =
      simple clock id expected w v value_error "goal.continuation_updated"
        (λ g. not (is_terminal g.status)) (λ g. record g { continuation = c })
        (λ g s t. ground arith)

  pub attach_plan-Step :
      (plan : String)
      → attach_plan clock id expected w plan ≡ ok (g', w')
      → Step id expected w g' w'
  unfolding attach_plan
  attach_plan-Step plan =
      simple clock id expected w v value_error "goal.plan_attached"
        (λ g. not (is_terminal g.status)) (λ g. record g { plan_id = some plan })
        (λ g s t. ground arith)

  pub resume-Step : resume clock id expected w ≡ ok (g', w') → Step id expected w g' w'
  unfolding resume
  resume-Step =
      simple clock id expected w v value_error "goal.resumed" (λ g. not (is_terminal g.status))
        (λ g. record g {
          status = active;
          activation = armed;
          blocked_reason = none;
          current_task_id = none;
        })
        (λ g s t. ground arith)

  pub block-Step :
      (reason : BlockedReason)
      → block clock id expected w reason ≡ ok (g', w')
      → Step id expected w g' w'
  unfolding block
  block-Step reason =
      simple clock id expected w v value_error "goal.blocked" (λ g. not (is_terminal g.status))
        (λ g. record g {
          status = blocked;
          activation = disarmed;
          blocked_reason = some reason;
          current_task_id = none;
        })
        (λ g s t. ground arith)

  pub edit-Step :
      (objective : String)
      → edit clock id expected w objective ≡ ok (g', w')
      → Step id expected w g' w'
  unfolding edit
  edit-Step objective =
      simple_twice clock id expected w v "goal.edited" (λ g. not (is_empty (strip objective)))
        (λ g. not (is_terminal g.status))
        (λ g. record g { objective = strip objective; title = prefix 120 (strip objective) })
        (λ g s full live. ground (arith, strip_idem objective))

  pub update_max_rounds-Step :
      (rounds : ℤ)
      → update_max_rounds clock id expected w rounds ≡ ok (g', w')
      → Step id expected w g' w'
  unfolding update_max_rounds
  update_max_rounds-Step rounds =
      simple_twice clock id expected w v "goal.max_rounds_updated" (λ g. not (is_terminal g.status))
        (λ g. leb g.rounds_started (at_least_one rounds))
        (λ g. record g { max_rounds = at_least_one rounds })
        (λ g s live room. ground (arith, at_least_one-pos rounds))

  pub disarm-Step : disarm clock id expected w ≡ ok (g', w') → Step id expected w g' w'
  unfolding disarm
  disarm-Step =
      unless_terminal clock id expected w v "goal.disarmed"
        (λ g. record g { activation = disarmed; current_task_id = none }) (λ g s live. ground arith)

  pub cancel-Step : cancel clock id expected w ≡ ok (g', w') → Step id expected w g' w'
  unfolding cancel
  cancel-Step =
      unless_terminal clock id expected w v "goal.cancelled"
        (λ g. record g { status = cancelled; activation = disarmed; current_task_id = none })
        (λ g s live. ground arith)

  pub record_dropped_round-Step :
      (task : String) (round : ℕ) (reason : String)
      → record_dropped_round clock id expected w task round reason ≡ ok (g', w')
      → Step id expected w g' w'
  unfolding record_dropped_round record_drop
  record_dropped_round-Step task round reason =
      unless_terminal clock id expected w v "goal.round_dropped"
        (λ g. record g { continuation = dropped clock task round reason g.continuation })
        (λ g s live. ground arith)
