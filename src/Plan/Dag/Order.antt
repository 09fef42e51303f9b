-- ===== src/Plan/Dag/Order.antt =====
-- The method _validate_dag of core/plan/models.py: a walk that does not raise orders the tasks.
use learn_agent.Prelude.{
  ℕ, zero, suc, ◌≡◌, refl, subst, String, true, eq_refl, List, [], ◌∷◌, length, All, arith,
  Bool-cases, inl, inr,
}
use learn_agent.Plan.Dag.{
  Node, member, dependencies, Walk, seen, cyclic, stuck, each, leave, visit, names, validate_dag,
}

-- Every node stands before, in time, those that depend on it.
abbrev pub Ordered : List Node → List String → Type 0
Ordered ns [] = Unit
Ordered ns (x ∷ vs) = All (λ d. member d vs ≡ true) (dependencies ns x) × Ordered ns vs

-- Where a walk that is not cyclic leads to.
record Leads (ns : List Node) (xs visited more : List String) : Type 0 where
  ordered : Ordered ns more
  grows : (y : String) → member y visited ≡ true → member y more ≡ true
  reached : All (λ x. member x more ≡ true) xs

All-grow :
    (xs vs ws : List String)
    → ((y : String) → member y vs ≡ true → member y ws ≡ true)
    → All (λ x. member x vs ≡ true) xs
    → All (λ x. member x ws ≡ true) xs
All-grow [] vs ws h a = a
All-grow (x ∷ xs) vs ws h (p, a) = (h x p, All-grow xs vs ws h a)

-- A visit of one node, as the loop uses it.
abbrev Sound : List Node → (String → List String → Walk) → Type 0
Sound ns go =
    (x : String) (visited more : List String)
    → Ordered ns visited
    → go x visited ≡ seen more
    → Leads ns (x ∷ []) visited more

Walk-cases :
    (w : Walk) {more : List String} (go : List String → Walk)
    → (elim w [ seen vs ↦ go vs | cyclic ↦ cyclic | stuck ↦ stuck ]) ≡ seen more
    → (vs : List String) × (w ≡ seen vs) × (go vs ≡ seen more)
Walk-cases (seen vs) go h = (vs, refl, h)
Walk-cases cyclic go h = absurd (cc)
Walk-cases stuck go h = absurd (cc)

walk_same : (vs ws : List String) → seen vs ≡ seen ws → vs ≡ ws
walk_same vs ws h = cc

-- A walk that stays where it was.
stays :
    (ns : List Node) (visited more : List String)
    → Ordered ns visited
    → visited ≡ more
    → Leads ns [] visited more
stays ns visited more o e = record {
  ordered = subst (Ordered ns) e o;
  grows = λ y m. subst (λ v. member y v ≡ true) e m;
  reached = tt;
}

leave-cases :
    (x : String) (w : Walk) {more : List String}
    → leave x w ≡ seen more
    → (vs : List String) × (w ≡ seen vs) × ((x ∷ vs) ≡ more)
unfolding leave
leave-cases x (seen vs) {more} h = (vs, refl, walk_same (x ∷ vs) more h)
leave-cases x cyclic h = absurd (cc)
leave-cases x stuck h = absurd (cc)

member_self : (x : String) (vs : List String) → member x (x ∷ vs) ≡ true
member_self x vs = rw (eq_refl x) refl

member-cons : (x y : String) (vs : List String) → member y vs ≡ true → member y (x ∷ vs) ≡ true
member-cons x y vs h = ground arith

-- A node that is left, after its dependencies have been visited.
left :
    (ns : List Node) (x : String) (visited vs more : List String)
    → Leads ns (dependencies ns x) visited vs
    → (x ∷ vs) ≡ more
    → Leads ns (x ∷ []) visited more
left ns x visited vs more l e = subst (Leads ns (x ∷ []) visited) e (record {
  ordered = (l.reached, l.ordered);
  grows = λ y m. member-cons x y vs (l.grows y m);
  reached = (member_self x vs, tt);
})

each-Leads :
    (ns : List Node) (go : String → List String → Walk)
    → Sound ns go
    → (xs visited more : List String) → Ordered ns visited
    → each go xs visited ≡ seen more
    → Leads ns xs visited more
unfolding each
each-Leads ns go s [] visited more o h = stays ns visited more o (walk_same visited more h)
each-Leads ns go s (x ∷ xs) visited more o h =
    let (vs, e, rest) = Walk-cases (go x visited) (each go xs) h in
    let first = s x visited vs o e in
    let next = each-Leads ns go s xs vs more first.ordered rest in
    record {
      ordered = next.ordered;
      grows = λ y m. next.grows y (first.grows y m);
      reached = (next.grows x first.reached.0, next.reached);
    }

visit-Leads : (f : ℕ) (ns : List Node) (path : List String) → Sound ns (visit f ns path)
unfolding visit
visit-Leads zero ns path x visited more o h = absurd (cc)
visit-Leads (suc f) ns path x visited more o h = elim (Bool-cases (member x path)) [
  | inl again ↦ absurd (cc (rw again at h))
  | inr fresh ↦ elim (Bool-cases (member x visited)) [
    | inl old ↦
        let same = walk_same visited more (rw (fresh, old) at h) in
        let s = stays ns visited more o same in
        record { ordered = s.ordered; grows = s.grows; reached = (s.grows x old, tt) }
    | inr new ↦
        let (vs, e, last) = leave-cases x _ (rw (fresh, new) at h) in
        left ns x visited vs more
          (each-Leads ns (visit f ns (x ∷ path)) (visit-Leads f ns (x ∷ path)) (dependencies ns x)
            visited vs o e)
          last
  ]
]

-- Where _validate_dag does not raise, the order in which it leaves the nodes has every node after
-- all its dependencies, and every node is in it.
pub validate_dag-Ordered :
    (ns : List Node) (order : List String)
    → validate_dag ns ≡ seen order
    → Ordered ns order × All (λ x. member x order ≡ true) (names ns)
unfolding validate_dag
validate_dag-Ordered ns order h =
    let l =
      each-Leads ns (visit (suc (length ns)) ns []) (visit-Leads (suc (length ns)) ns []) (names ns)
        [] order tt h in
    (l.ordered, l.reached)
