-- ===== src/Examples/Policies.antt =====
-- Runs of PolicyEngine.decide (core/policy_engine.py).
use learn_agent.Prelude.{
  ◌≡◌, ◌≢◌, ◌≤◌, ◌||◌, ◌&&◌, refl, String, none, some, List, [], ◌∷◌, false, ◌==◌, if◌then◌else◌,
  any, not, arith,
}
use learn_agent.Policy.{
  allow, deny, Mode, readonly, unreviewed, Param, text, Surroundings, decide, distinct,
  infer_capabilities, judge, choose, execution, all_paths, extract_paths, harden, leaves_workspace,
}
use learn_agent.Policy.Verdicts.{
  rank, modes_monotone, denied_exactly, denies, is_dangerous, is_readonly, is_shut, readonly_holds,
  allow_stays_inside,
}

abbrev machine : Surroundings
machine = record {
  lower = λ c. if c == "RM -rf /" then "rm -rf /" else c;
  danger = λ c. if c == "rm -rf /" then some "rm" else none;
  shell_paths = λ c. [];
  is_system_path = λ p. p == "/etc/passwd";
  is_workspace_path = λ p. p == "/work/a";
}

abbrev removal : List (String × Param)
removal = ("command", text "RM -rf /") ∷ []

abbrev harmless : List (String × Param)
harmless = ("command", text "ls") ∷ ("cwd", text "/work/a") ∷ []

modes_monotone_example :
    rank (decide machine readonly "bash" harmless []).level
    ≤ rank (decide machine Mode.allow "bash" harmless []).level
modes_monotone_example = modes_monotone machine readonly Mode.allow "bash" harmless [] (omega arith)

denied_exactly_example : denies (decide machine unreviewed "bash" removal []).level ≡ (
    is_dangerous machine "bash" removal []
    || (is_readonly unreviewed && is_shut machine "bash" removal []))
denied_exactly_example = denied_exactly machine unreviewed "bash" removal []

-- The command is denied although it is not in small letters.
removal_denied : (decide machine unreviewed "bash" removal []).level ≡ deny
unfolding infer_capabilities distinct decide judge choose execution all_paths extract_paths harden
removal_denied = refl

readonly_holds_example : (decide machine readonly "bash" harmless []).level ≢ allow
unfolding infer_capabilities distinct
readonly_holds_example = readonly_holds machine "bash" harmless [] refl

allow_stays_inside_example :
    (any
        (λ p. not (machine.is_workspace_path p))
        (decide machine Mode.allow "bash" harmless []).paths
      ≡ false)
    × (any machine.is_system_path (decide machine Mode.allow "bash" harmless []).paths ≡ false)
unfolding infer_capabilities distinct decide judge choose execution all_paths extract_paths harden
    leaves_workspace
allow_stays_inside_example = allow_stays_inside machine "bash" harmless [] refl refl refl
