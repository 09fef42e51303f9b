-- ===== src/Plan/Dag/Ranked.antt =====
-- The method _validate_dag of core/plan/models.py: a graph without a cycle is accepted.
use learn_agent.Prelude.{
  ℕ, zero, suc, ◌≡◌, ◌≤◌, ◌<◌, ◌∙◌, refl, ap, subst, String, false, ◌==◌, eq_iff, List, [], ◌∷◌,
  length, All, arith, Bool-cases, inl, inr,
}
use learn_agent.Plan.Dag.{
  Node, member, dependencies, Walk, seen, cyclic, stuck, each, leave, visit, names, validate_dag,
}

-- A walk ends with a set of visited nodes.
abbrev Ends : Walk → Type 0
Ends w = (more : List String) × (w ≡ seen more)

leave-Ends : (x : String) (w : Walk) → Ends w → Ends (leave x w)
unfolding leave
leave-Ends x w (more, e) = rw e (x ∷ more, refl)

each-step :
    (go : String → List String → Walk) (x : String) (xs visited vs : List String)
    → go x visited ≡ seen vs
    → each go (x ∷ xs) visited ≡ each go xs vs
unfolding each
each-step go x xs visited vs e =
    ap
      (λ w. elim w as (λ _. Walk) [ seen more ↦ each go xs more | cyclic ↦ cyclic | stuck ↦ stuck ])
      e

each-Ends :
    (go : String → List String → Walk) (xs visited : List String)
    → All (λ x. (vs : List String) → Ends (go x vs)) xs
    → Ends (each go xs visited)
unfolding each
each-Ends go [] visited a = (visited, refl)
each-Ends go (x ∷ xs) visited (now, later) =
    let (vs, e) = now visited in
    let (more, rest) = each-Ends go xs vs later in (more, each-step go x xs visited vs e ∙ rest)

module _ (ns : List Node) (rank : String → ℕ)
    (falls : (x : String) → All (λ d. rank d < rank x) (dependencies ns x)) where
  -- A node of a lower rank than all of a path is not on it.
  off_path :
      (x : String) (path : List String) → All (λ p. rank x < rank p) path → member x path ≡ false
  off_path x [] a = refl
  off_path x (p ∷ path) (low, a) = elim (Bool-cases (x == p)) [
    | inl same ↦ absurd (
        let e : x ≡ p = (eq_iff x p).0 same in
        let l = subst (λ k. rank k < rank p) e low in omega arith)
    | inr other ↦ rw other (off_path x path a)
  ]

  below_path :
      (x d : String) (path : List String)
      → rank d < rank x
      → All (λ p. rank x < rank p) path
      → All (λ p. rank d < rank p) path
  below_path x d [] l a = tt
  below_path x d (p ∷ path) l (low, a) = (omega arith, below_path x d path l a)

  -- The dependencies of a node end.
  below-Ends :
      (f : ℕ) (path : List String) (x : String) (ds : List String)
      → rank x ≤ f
      → All (λ p. rank x < rank p) path
      → All (λ d. rank d < rank x) ds
      → ((d : String) (vs : List String)
          → rank d < f
          → All (λ p. rank d < rank p) (x ∷ path)
          → Ends (visit f ns (x ∷ path) d vs))
      → All (λ d. (vs : List String) → Ends (visit f ns (x ∷ path) d vs)) ds
  below-Ends f path x [] r a b go = tt
  below-Ends f path x (d ∷ ds) r a (low, b) go = (
    λ vs. go d vs (omega arith) (low, below_path x d path low a),
    below-Ends f path x ds r a b go,
  )

  visit-Ends :
      (f : ℕ) (path : List String) (x : String) (visited : List String)
      → rank x < f
      → All (λ p. rank x < rank p) path
      → Ends (visit f ns path x visited)
  unfolding visit
  visit-Ends zero path x visited r a = absurd (omega arith)
  visit-Ends (suc f) path x visited r a =
      rw (off_path x path a) (elim (Bool-cases (member x visited)) [
        | inl old ↦ rw old (visited, refl)
        | inr new ↦ rw new (
            leave-Ends x _ (
              each-Ends (visit f ns (x ∷ path)) (dependencies ns x) visited (
                below-Ends f path x (dependencies ns x) (omega arith) a (falls x)
                  (λ d vs. visit-Ends f (x ∷ path) d vs))))
      ])

  roots :
      ((x : String) → rank x ≤ length ns)
      → (xs : List String)
      → All (λ x. (vs : List String) → Ends (visit (suc (length ns)) ns [] x vs)) xs
  roots low [] = tt
  roots low (x ∷ xs) =
      (λ vs. visit-Ends (suc (length ns)) [] x vs (let l = low x in omega arith) tt, roots low xs)

-- Where every node has a rank above those of its dependencies, and no rank exceeds the number of
-- nodes, _validate_dag neither raises nor lacks fuel.
pub validate_dag-accepts :
    (ns : List Node) (rank : String → ℕ)
    → ((x : String) → rank x ≤ length ns)
    → ((x : String) → All (λ d. rank d < rank x) (dependencies ns x))
    → (order : List String) × (validate_dag ns ≡ seen order)
unfolding validate_dag
validate_dag-accepts ns rank low falls =
    each-Ends (visit (suc (length ns)) ns []) (names ns) [] (roots ns rank falls low (names ns))
