-- ===== src/Plan/Dag.antt =====
-- core/plan/models.py: Plan._validate_dag, a depth-first walk over the dependencies.
pub mod Order
pub mod Ranked
use learn_agent.Prelude.{
  ℕ, zero, suc, String, Option, none, some, Bool, true, false, ◌==◌, if◌then◌else◌, List, [], ◌∷◌,
  any, length,
}

pub record Node : Type 0 where
  pub id : String
  pub depends_on : List String

-- x in xs
abbrev pub member : String → List String → Bool
member x = any (λ y. x == y)

-- edges[node]
unfoldable pub dependencies : List Node → String → List String
dependencies [] x = []
dependencies (n ∷ ns) x = if n.id == x then n.depends_on else dependencies ns x

-- A visit ends with the set `visited`, raises on a cycle, or runs out of fuel.
pub data Walk : Type 0 where
  seen : List String → Walk
  cyclic : Walk
  stuck : Walk

-- The loop over the dependencies of a node, or over all nodes.
unfoldable pub each : (String → List String → Walk) → List String → List String → Walk
each visit [] visited = seen visited
each visit (x ∷ xs) visited = elim (visit x visited) [
  | seen more ↦ each visit xs more
  | cyclic ↦ cyclic
  | stuck ↦ stuck
]

-- visited.add(node)
unfoldable pub leave : String → Walk → Walk
leave x (seen visited) = seen (x ∷ visited)
leave x cyclic = cyclic
leave x stuck = stuck

-- `visit`, with the set `visiting` as the path from the root. The fuel bounds the depth.
unfoldable pub visit : ℕ → List Node → List String → String → List String → Walk
visit zero ns visiting x visited = stuck
visit (suc f) ns visiting x visited =
    let below = each (visit f ns (x ∷ visiting)) (dependencies ns x) visited in
    if member x visiting then cyclic else if member x visited then seen visited else leave x below

unfoldable pub names : List Node → List String
names [] = []
names (n ∷ ns) = n.id ∷ names ns

-- One more than the number of nodes is enough fuel: a path without a cycle is no longer.
unfoldable pub validate_dag : List Node → Walk
unfolding names visit
validate_dag ns = each (visit (suc (length ns)) ns []) (names ns) []

unfoldable pub is_acyclic : List Node → Bool
is_acyclic ns = elim (validate_dag ns) [ seen visited ↦ true | cyclic ↦ false | stuck ↦ false ]
