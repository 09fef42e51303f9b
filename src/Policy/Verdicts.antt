-- ===== src/Policy/Verdicts.antt =====
-- PolicyEngine.decide (core/policy_engine.py): what the four modes allow.
use learn_agent.Prelude.{
  ℕ, ◌≤◌, ◌≡◌, ◌≢◌, refl, sym, ◌∙◌, String, Bool, true, false, not, ◌&&◌, ◌||◌, ◌==◌, eq_iff, List,
  [], ◌∷◌, any, lookup, arith, Bool-cases, Option-cases, is_some, inl, inr, ap,
}
use learn_agent.Policy.{
  Level, allow, ask, deny, Mode, readonly, unreviewed, within, meets, file_read_caps,
  file_mutation_caps, exec_caps, network_caps, pure_tools, Param, shown, distinct, stated,
  runs_shell, Surroundings, decide, judge, execution, mutation, network, unclassified,
  leaves_workspace, all_paths, harden, choose,
}

-- How much a level lets through.
abbrev pub rank : Level → ℕ
rank deny = 0
rank ask = 1
rank allow = 2

abbrev pub freedom : Mode → ℕ
freedom readonly = 0
freedom Mode.ask = 1
freedom Mode.allow = 2
freedom unreviewed = 3

kept_first :
    (x y : String) (seen ys : List String)
    → (x == y) ≡ true
    → within y seen ≡ false
    → within x (distinct seen (y ∷ ys)) ≡ true
unfolding distinct
kept_first x y seen ys same fresh = rw (fresh, same) refl

-- Taking the duplicates out of a list keeps what is in it.
within-distinct :
    (x : String) (seen xs : List String)
    → within x seen ≡ false
    → within x (distinct seen xs) ≡ within x xs
unfolding distinct
within-distinct x seen [] h = refl
within-distinct x seen (y ∷ ys) h = elim (Bool-cases (x == y)) [
  | inl same ↦ rw same (
      let key : x ≡ y = (eq_iff x y).0 same in
      kept_first x y seen ys same (ap (λ k. within k seen) (sym key) ∙ h))
  | inr other ↦ elim (Bool-cases (within y seen)) [
    | inl old ↦ rw (old, other) (within-distinct x seen ys h)
    | inr fresh ↦ rw (fresh, other) (within-distinct x (y ∷ seen) ys (rw other h))
  ]
]

-- The capabilities, the paths and the verdict of the hard rule, as `decide` computes them.
abbrev caps_of : String → List (String × Param) → List String → List String
caps_of tool params capabilities = distinct [] (stated capabilities tool params)

abbrev is_hard : Surroundings → List (String × Param) → List String → Bool
is_hard s params caps =
    let command = shown (lookup "command" params) in
    runs_shell caps command && is_some (s.danger (s.lower command))

-- The level of `judge` on the paths of a call.
abbrev judged : Surroundings → Mode → String → List (String × Param) → List String → Level
judged s m tool params capabilities =
    (judge s m tool (caps_of tool params capabilities)
      (all_paths s (caps_of tool params capabilities) params)).0

-- A call is denied by the hard rule, or judged.
data Verdict (s : Surroundings) (m : Mode) (tool : String) (params : List (String × Param))
    (capabilities : List String) : Type 0 where
  hard :
      (decide s m tool params capabilities).level ≡ deny
      → is_hard s params (caps_of tool params capabilities) ≡ true
      → Verdict s m tool params capabilities
  soft :
      is_hard s params (caps_of tool params capabilities) ≡ false
      → (decide s m tool params capabilities).level ≡ judged s m tool params capabilities
      → (decide s m tool params capabilities).paths
        ≡ all_paths s (caps_of tool params capabilities) params
      → Verdict s m tool params capabilities

module _ (s : Surroundings) (tool : String) (params : List (String × Param))
    (capabilities : List String) where
  verdict : (m : Mode) → Verdict s m tool params capabilities
  unfolding decide harden
  verdict m =
      let caps = caps_of tool params capabilities in
      let command = shown (lookup "command" params) in
      elim (Bool-cases (runs_shell caps command)) [
        | inr off ↦ soft (rw off refl) (rw off refl) (rw off refl)
        | inl on ↦ elim (Option-cases (s.danger (s.lower command))) [
          | inl safe ↦ soft (rw (on, safe) refl) (rw (on, safe) refl) (rw (on, safe) refl)
          | inr (label, hit) ↦ hard (rw (on, hit) refl) (rw (on, hit) refl)
        ]
      ]

choose_monotone :
    (m m' : Mode) (a b c d e f g : Bool)
    → freedom m ≤ freedom m'
    → rank (choose m a b c d e f g).0 ≤ rank (choose m' a b c d e f g).0
unfolding choose network execution mutation unclassified
choose_monotone m m' a b c d e f g h = ground arith

-- The verdicts of two modes on one call.
compared :
    (m m' : Mode) (s : Surroundings) (tool : String) (params : List (String × Param))
    (capabilities : List String)
    → freedom m ≤ freedom m'
    → Verdict s m tool params capabilities
    → Verdict s m' tool params capabilities
    → rank (decide s m tool params capabilities).level
      ≤ rank (decide s m' tool params capabilities).level
unfolding judge
compared m m' s tool params capabilities h (hard at _) v = rw at (omega arith)
compared m m' s tool params capabilities h (soft off at _) (hard _ on) = absurd (cc)
compared m m' s tool params capabilities h (soft off at _) (soft off' at' _) =
    rw (at, at') (choose_monotone m m' _ _ _ _ _ _ _ h)

-- A mode that is freer than another lets at least as much through, for every call: from readonly
-- to ask, to allow, to unreviewed.
pub modes_monotone :
    (s : Surroundings) (m m' : Mode) (tool : String) (params : List (String × Param))
    (capabilities : List String)
    → freedom m ≤ freedom m'
    → rank (decide s m tool params capabilities).level
      ≤ rank (decide s m' tool params capabilities).level
modes_monotone s m m' tool params capabilities h =
    compared m m' s tool params capabilities h (verdict s tool params capabilities m)
      (verdict s tool params capabilities m')

abbrev pub denies : Level → Bool
denies deny = true
denies _ = false

abbrev pub is_readonly : Mode → Bool
is_readonly readonly = true
is_readonly _ = false

-- The call runs a shell command in which a dangerous pattern is found.
abbrev pub is_dangerous : Surroundings → String → List (String × Param) → List String → Bool
is_dangerous s tool params capabilities =
    let command = shown (lookup "command" params) in
    within "exec:shell" (stated capabilities tool params)
    && not (command == "")
    && is_some (s.danger (s.lower command))

-- The call is off system paths and the network, and acts or is not known to be harmless.
abbrev pub is_shut : Surroundings → String → List (String × Param) → List String → Bool
is_shut s tool params capabilities =
    let caps = distinct [] (stated capabilities tool params) in
    not (any s.is_system_path (all_paths s caps params))
    && not (meets caps network_caps)
    && (meets caps exec_caps
        || meets caps file_mutation_caps
        || not (meets caps file_read_caps || within tool pure_tools))

denies-choose :
    (m : Mode) (a b c d e f g : Bool)
    → denies (choose m a b c d e f g).0
      ≡ (is_readonly m && (not a && not b && (c || d || not (e || f))))
unfolding choose network execution mutation unclassified
denies-choose m a b c d e f g = ground arith

and_assoc : (a b c : Bool) → ((a && b) && c) ≡ (a && b && c)
and_assoc true b c = refl
and_assoc false b c = refl

hard_dangerous :
    (s : Surroundings) (tool : String) (params : List (String × Param)) (capabilities : List String)
    → is_hard s params (caps_of tool params capabilities) ≡ is_dangerous s tool params capabilities
hard_dangerous s tool params capabilities =
    let command = shown (lookup "command" params) in
    let found = is_some (s.danger (s.lower command)) in
    and_assoc (within "exec:shell" (caps_of tool params capabilities)) (not (command == "")) found
    ∙ ap (λ shell. shell && not (command == "") && found)
        (within-distinct "exec:shell" [] (stated capabilities tool params) refl)

-- A call is denied, in whatever mode, exactly if it runs a shell command that is dangerous in small
-- letters, or the mode is readonly, no path of the call is a system path, it has no networking
-- capability, and it has an executing or mutating one or neither reads files nor is a pure tool.
pub denied_exactly :
    (s : Surroundings) (m : Mode) (tool : String) (params : List (String × Param))
    (capabilities : List String)
    → denies (decide s m tool params capabilities).level ≡ (
        is_dangerous s tool params capabilities
        || (is_readonly m && is_shut s tool params capabilities))
unfolding judge
denied_exactly s m tool params capabilities =
    let same = hard_dangerous s tool params capabilities in
    elim (verdict s tool params capabilities m) [
      | hard at on ↦ rw (at, sym same ∙ on) refl
      | soft off at paths ↦ rw (at, sym same ∙ off) (denies-choose m _ _ _ _ _ _ _)
    ]

guarded_readonly :
    (a b c d e f g : Bool) → (c || d || b) ≡ true → (choose readonly a b c d e f g).0 ≢ allow
unfolding choose network execution mutation
guarded_readonly a b c d e f g h k = ground arith

-- Readonly mode never lets a call with an executing, mutating or networking capability through
-- unasked.
pub readonly_holds :
    (s : Surroundings) (tool : String) (params : List (String × Param)) (capabilities : List String)
    → (meets (distinct [] (stated capabilities tool params)) exec_caps
        || meets (distinct [] (stated capabilities tool params)) file_mutation_caps
        || meets (distinct [] (stated capabilities tool params)) network_caps)
      ≡ true
    → (decide s readonly tool params capabilities).level ≢ allow
unfolding judge
readonly_holds s tool params capabilities h k = elim (verdict s tool params capabilities readonly) [
  | hard at on ↦ absurd (let e : deny ≡ allow = sym at ∙ k in cc)
  | soft off at paths ↦ guarded_readonly _ _ _ _ _ _ _ h (sym at ∙ k)
]

never_asking : (a b c d e f g : Bool) → (choose unreviewed a b c d e f g).0 ≢ ask
unfolding choose network execution mutation unclassified
never_asking a b c d e f g k = ground arith

-- Unreviewed mode never asks.
pub unreviewed_never_asks :
    (s : Surroundings) (tool : String) (params : List (String × Param)) (capabilities : List String)
    → (decide s unreviewed tool params capabilities).level ≢ ask
unfolding judge
unreviewed_never_asks s tool params capabilities k =
    elim (verdict s tool params capabilities unreviewed) [
      | hard at on ↦ absurd (let e : deny ≡ ask = sym at ∙ k in cc)
      | soft off at paths ↦ never_asking _ _ _ _ _ _ _ (sym at ∙ k)
    ]

staying :
    (a b c d e f g : Bool)
    → b ≡ false
    → (c || d) ≡ true
    → (choose Mode.allow a b c d e f g).0 ≡ allow
    → (g ≡ false) × (a ≡ false)
unfolding choose execution mutation
staying a b c d e f g off h k = ground arith

-- In allow mode, where no network capability is stated, a call with an executing or mutating
-- capability is let through unasked only if every path that the decision names lies in the
-- workspace and none is a system path.
pub allow_stays_inside :
    (s : Surroundings) (tool : String) (params : List (String × Param)) (capabilities : List String)
    → meets (distinct [] (stated capabilities tool params)) network_caps ≡ false
    → (meets (distinct [] (stated capabilities tool params)) exec_caps
        || meets (distinct [] (stated capabilities tool params)) file_mutation_caps)
      ≡ true
    → (decide s Mode.allow tool params capabilities).level ≡ allow
    → (any (λ p. not (s.is_workspace_path p)) (decide s Mode.allow tool params capabilities).paths
        ≡ false)
      × (any s.is_system_path (decide s Mode.allow tool params capabilities).paths ≡ false)
unfolding judge leaves_workspace
allow_stays_inside s tool params capabilities quiet acts h =
    elim (verdict s tool params capabilities Mode.allow) [
      | hard at on ↦ absurd (let e : deny ≡ allow = sym at ∙ h in cc)
      | soft off at paths ↦ rw paths (
          staying _ _ (meets (caps_of tool params capabilities) exec_caps)
            (meets (caps_of tool params capabilities) file_mutation_caps)
            (meets (caps_of tool params capabilities) file_read_caps) (within tool pure_tools) _
            quiet acts (sym at ∙ h))
    ]
