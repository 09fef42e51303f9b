-- ===== src/Plan/Manager/Downstream.antt =====
-- PlanManager._block_downstream (core/plan/manager.py): the loop ends within its fuel.
use learn_agent.Prelude.{
  ℕ, zero, suc, ◌+◌, ◌*◌, ◌≤◌, ◌≡◌, refl, String, true, List, [], ◌∷◌, length, Bool-cases, inl, inr,
  if◌then◌else◌, arith, Iso, ◌==◌,
}
use learn_agent.Plan.TaskStatus.{task_is, pending}
use learn_agent.Plan.Model.{PlanTask, PlanReason, find_task}
use learn_agent.Plan.Manager.{
  spread, spread_fuel, dependents_of, union, change_task, block_task, is_pending, block_downstream,
}

length-union : (xs set : List String) → length (union xs set) ≤ length xs + length set
unfolding union
length-union [] set = omega arith
length-union (x ∷ xs) set = let ih = length-union xs set in ground arith

length-dependents_of : (id : String) (ts : List PlanTask) → length (dependents_of id ts) ≤ length ts
unfolding dependents_of
length-dependents_of id [] = omega arith
length-dependents_of id (t ∷ ts) = let ih = length-dependents_of id ts in ground arith

length-change_task :
    (id : String) (f : PlanTask → PlanTask) (ts : List PlanTask)
    → length (change_task id f ts) ≡ length ts
unfolding change_task
length-change_task id f [] = refl
length-change_task id f (t ∷ ts) = let ih = length-change_task id f ts in ground arith

-- The turns that the pending tasks may add, where each adds at most `n`.
abbrev weight : ℕ → List PlanTask → ℕ
weight n [] = 0
weight n (t ∷ ts) = (if task_is t.status pending then n else 0) + weight n ts

weight-le : (n : ℕ) (ts : List PlanTask) → weight n ts ≤ n * length ts
weight-le n [] = omega arith
weight-le n (t ∷ ts) = let ih = weight-le n ts in ground arith

-- Blocking a pending task takes its weight away.
weight-block :
    (n : ℕ) (id : String) (now : Iso) (reason : PlanReason) (ts : List PlanTask)
    → is_pending id ts ≡ true
    → weight n ts ≡ n + weight n (change_task id (block_task now reason) ts)
unfolding change_task find_task
weight-block n id now reason [] h = ground arith
weight-block n id now reason (t ∷ ts) h = elim (Bool-cases (t.plan_task_id == id)) [
  | inl here ↦ ground arith
  | inr there ↦
      (let ih = weight-block n id now reason ts (rw (is_pending, find_task, there) at h) in
        ground arith)
]

spread-ends :
    (f : ℕ) (now : Iso) (reason : PlanReason) (set : List String) (tasks : List PlanTask)
    → length set + weight (suc (length tasks)) tasks ≤ f
    → (spread f now reason set tasks).0 ≡ []
unfolding spread
spread-ends zero now reason [] tasks h = refl
spread-ends zero now reason (x ∷ set) tasks h = ground arith
spread-ends (suc f) now reason [] tasks h = refl
spread-ends (suc f) now reason (x ∷ set) tasks h = elim (Bool-cases (is_pending x tasks)) [
  | inl on ↦
      let next = change_task x (block_task now reason) tasks in
      let size = length-change_task x (block_task now reason) tasks in
      let lost = weight-block (suc (length tasks)) x now reason tasks on in
      let more = length-union (dependents_of x next) set in
      let few = length-dependents_of x next in
      rw (on)
        (spread-ends f now reason (union (dependents_of x next) set) next (rw size (omega arith)))
  | inr over ↦ rw over (spread-ends f now reason set tasks (omega arith))
]

-- The loop over the tasks downstream of a failed one ends: no id is left in its set when the fuel
-- that the model gives it is used up.
pub block_downstream-ends :
    (now : Iso) (id reason : String) (tasks : List PlanTask)
    → (block_downstream now id reason tasks).0 ≡ []
unfolding block_downstream
block_downstream-ends now id reason tasks =
    spread-ends (spread_fuel tasks) now _ (dependents_of id tasks) tasks (
      let a = length-dependents_of id tasks in
      let b = weight-le (suc (length tasks)) tasks in omega arith)
