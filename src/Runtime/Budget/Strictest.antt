-- ===== src/Runtime/Budget/Strictest.antt =====
-- Budget.strictest (core/runtime/models.py) against what it is to compute.
use learn_agent.Prelude.{
  ℕ, ◌≡◌, ◌≤◌, refl, sym, subst, Bool, true, false, Option, none, some, List, [], ◌∷◌, any, All,
  ◌⊎◌, inl, inr, min, eqb, arith, ◌||◌,
}
use learn_agent.Runtime.Budget.{Budget, limits, and_limit, least, lowest, strictest}

-- The fields of a budget.
pub data Field : Type 0 where
  steps input_tokens output_tokens total_tokens wall_seconds tool_calls failures children : Field

abbrev pub limit_of : Field → Budget → Option ℕ
limit_of steps b = b.max_steps
limit_of input_tokens b = b.max_input_tokens
limit_of output_tokens b = b.max_output_tokens
limit_of total_tokens b = b.max_total_tokens
limit_of wall_seconds b = b.max_wall_seconds
limit_of tool_calls b = b.max_tool_calls
limit_of failures b = b.max_failures
limit_of children b = b.max_children

-- No budget that states a limit states a lower one.
abbrev pub AtMost : Field → ℕ → Option Budget → Type 0
AtMost f m none = Unit
AtMost f m (some b) = (n : ℕ) → limit_of f b ≡ some n → m ≤ n

-- A budget is not given, or states no limit.
abbrev pub Silent : Field → Option Budget → Type 0
Silent f none = Unit
Silent f (some b) = limit_of f b ≡ none

abbrev pub is_limit : ℕ → Option ℕ → Bool
is_limit m none = false
is_limit m (some n) = eqb m n

abbrev pub states : Field → ℕ → Option Budget → Bool
states f m none = false
states f m (some b) = is_limit m (limit_of f b)

strictest-lowest :
    (f : Field) (bs : List (Option Budget))
    → limit_of f (strictest bs) ≡ lowest (limits (limit_of f) bs)
unfolding strictest
strictest-lowest steps bs = refl
strictest-lowest input_tokens bs = refl
strictest-lowest output_tokens bs = refl
strictest-lowest total_tokens bs = refl
strictest-lowest wall_seconds bs = refl
strictest-lowest tool_calls bs = refl
strictest-lowest failures bs = refl
strictest-lowest children bs = refl

-- min(limits) is one of the limits and is at most each.
least-le : (n : ℕ) (ms : List ℕ) → (least n ms ≤ n) × All (λ m. least n ms ≤ m) ms
unfolding least
least-le n [] = (omega arith, tt)
least-le n (m ∷ ms) = let (a, b) = least-le (min n m) ms in (omega arith, (omega arith, b))

least-in : (n : ℕ) (ms : List ℕ) → any (eqb (least n ms)) (n ∷ ms) ≡ true
unfolding least
least-in n [] = ground arith
least-in n (m ∷ ms) = let ih = least-in (min n m) ms in ground arith

bounded_limit :
    (m : ℕ) (o : Option ℕ) (ns : List ℕ)
    → All (λ n. m ≤ n) (and_limit o ns)
    → ((n : ℕ) → o ≡ some n → m ≤ n) × All (λ n. m ≤ n) ns
bounded_limit m none ns a = (λ n e. absurd (cc), a)
bounded_limit m (some k) ns (low, a) =
    (λ n e. let same : k ≡ n = cc in subst (λ x. m ≤ x) same low, a)

bounded :
    (f : Field) (m : ℕ) (bs : List (Option Budget))
    → All (λ n. m ≤ n) (limits (limit_of f) bs)
    → All (AtMost f m) bs
unfolding limits
bounded f m [] a = tt
bounded f m (none ∷ bs) a = (tt, bounded f m bs a)
bounded f m (some b ∷ bs) a =
    let (low, rest) = bounded_limit m (limit_of f b) (limits (limit_of f) bs) a in
    (low, bounded f m bs rest)

stated_limit :
    (m : ℕ) (o : Option ℕ) (ns : List ℕ)
    → any (eqb m) (and_limit o ns) ≡ true
    → (is_limit m o || any (eqb m) ns) ≡ true
stated_limit m none ns h = h
stated_limit m (some k) ns h = h

either : (a b c : Bool) → (a || b) ≡ true → (b ≡ true → c ≡ true) → (a || c) ≡ true
either true b c h k = refl
either false b c h k = k h

stated_by :
    (f : Field) (m : ℕ) (bs : List (Option Budget))
    → any (eqb m) (limits (limit_of f) bs) ≡ true
    → any (states f m) bs ≡ true
unfolding limits
stated_by f m [] h = h
stated_by f m (none ∷ bs) h = stated_by f m bs h
stated_by f m (some b ∷ bs) h =
    either (is_limit m (limit_of f b)) _ _
      (stated_limit m (limit_of f b) (limits (limit_of f) bs) h) (stated_by f m bs)

silent_limit : (o : Option ℕ) (ns : List ℕ) → and_limit o ns ≡ [] → (o ≡ none) × (ns ≡ [])
silent_limit none ns h = (refl, h)
silent_limit (some k) ns h = absurd (cc)

silent : (f : Field) (bs : List (Option Budget)) → limits (limit_of f) bs ≡ [] → All (Silent f) bs
unfolding limits
silent f [] h = tt
silent f (none ∷ bs) h = (tt, silent f bs h)
silent f (some b ∷ bs) h =
    let (first, rest) = silent_limit (limit_of f b) (limits (limit_of f) bs) h in
    (first, silent f bs rest)

lowest-cases :
    (f : Field) (bs : List (Option Budget)) (ns : List ℕ)
    → limits (limit_of f) bs ≡ ns
    → ((lowest ns ≡ none) × All (Silent f) bs)
      ⊎ ((m : ℕ) × (lowest ns ≡ some m) × All (AtMost f m) bs × (any (states f m) bs ≡ true))
unfolding lowest
lowest-cases f bs [] e = inl (refl, silent f bs e)
lowest-cases f bs (n ∷ ns) e = inr (
  least n ns,
  refl,
  bounded f (least n ns) bs (subst (All (λ k. least n ns ≤ k)) (sym e) (least-le n ns)),
  stated_by f (least n ns) bs
      (subst (λ l. any (eqb (least n ns)) l ≡ true) (sym e) (least-in n ns)),
)

-- A field of the strictest of some budgets is without a limit, and then none of the budgets given
-- has one in this field, or its limit is stated by one of them and none states a lower one.
pub strictest_lem :
    (f : Field) (bs : List (Option Budget))
    → ((limit_of f (strictest bs) ≡ none) × All (Silent f) bs)
      ⊎ ((m : ℕ) × (limit_of f (strictest bs) ≡ some m)
          × All (AtMost f m) bs
          × (any (states f m) bs ≡ true))
strictest_lem f bs = rw (strictest-lowest f bs) (lowest-cases f bs (limits (limit_of f) bs) refl)
