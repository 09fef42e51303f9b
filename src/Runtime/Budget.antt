-- ===== src/Runtime/Budget.antt =====
-- core/runtime/models.py: execution ceilings. `none` means no additional limit.
pub mod Strictest
use learn_agent.Prelude.{ℕ, List, [], ◌∷◌, Option, none, some, min}

pub record Budget : Type 0 where
  pub max_steps : Option ℕ
  pub max_input_tokens : Option ℕ
  pub max_output_tokens : Option ℕ
  pub max_total_tokens : Option ℕ
  pub max_wall_seconds : Option ℕ
  pub max_tool_calls : Option ℕ
  pub max_failures : Option ℕ
  pub max_children : Option ℕ

abbrev pub and_limit : Option ℕ → List ℕ → List ℕ
and_limit none ns = ns
and_limit (some n) ns = n ∷ ns

-- The limits that the budgets given state for one field: no budget and no limit are left out.
unfoldable pub limits : (Budget → Option ℕ) → List (Option Budget) → List ℕ
limits field [] = []
limits field (none ∷ bs) = limits field bs
limits field (some b ∷ bs) = and_limit (field b) (limits field bs)

-- min(limits)
unfoldable pub least : ℕ → List ℕ → ℕ
least n [] = n
least n (m ∷ ms) = least (min n m) ms

-- min(limits) if limits else None
unfoldable pub lowest : List ℕ → Option ℕ
lowest [] = none
lowest (n ∷ ns) = some (least n ns)

unfoldable pub strictest : List (Option Budget) → Budget
strictest bs = record {
  max_steps = lowest (limits (λ b. b.max_steps) bs);
  max_input_tokens = lowest (limits (λ b. b.max_input_tokens) bs);
  max_output_tokens = lowest (limits (λ b. b.max_output_tokens) bs);
  max_total_tokens = lowest (limits (λ b. b.max_total_tokens) bs);
  max_wall_seconds = lowest (limits (λ b. b.max_wall_seconds) bs);
  max_tool_calls = lowest (limits (λ b. b.max_tool_calls) bs);
  max_failures = lowest (limits (λ b. b.max_failures) bs);
  max_children = lowest (limits (λ b. b.max_children) bs);
}
