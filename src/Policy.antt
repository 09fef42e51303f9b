-- ===== src/Policy.antt =====
-- core/policy_engine.py: PolicyEngine. What it takes from the operating system, from regular
-- expressions and from the checks of core/sandbox/guard.py is a record of functions.
pub mod Verdicts
use learn_agent.Prelude.{
  ℕ, String, Option, none, some, Bool, true, false, not, ◌&&◌, ◌||◌, ◌==◌, if◌then◌else◌, List, [],
  ◌∷◌, ◌++◌, any, all, lookup, concat, leb, eqb, ◌+◌, map,
}
use Prim.Native.Char.{code}

pub data Level : Type 0 where
  allow ask deny : Level

pub data Mode : Type 0 where
  readonly ask allow unreviewed : Mode

-- mode if mode in VALID_MODES else "ask"
unfoldable pub set_mode : String → Mode
set_mode m =
    if m == "readonly"
    then readonly
    else if m == "allow"
    then Mode.allow
    else if m == "unreviewed"
    then unreviewed
    else Mode.ask

abbrev pub mode_name : Mode → String
mode_name readonly = "readonly"
mode_name Mode.ask = "ask"
mode_name Mode.allow = "allow"
mode_name unreviewed = "unreviewed"

-- x in xs
abbrev pub within : String → List String → Bool
within x = any (λ y. x == y)

-- set(caps) & group
abbrev pub meets : List String → List String → Bool
meets caps group = any (λ c. within c group) caps

abbrev pub file_read_caps : List String
file_read_caps = "fs:read" ∷ "proc:read" ∷ []

abbrev pub file_mutation_caps : List String
file_mutation_caps = "fs:write" ∷ "fs:edit" ∷ "fs:delete" ∷ "fs:move" ∷ []

abbrev pub exec_caps : List String
exec_caps = "exec:shell" ∷ "exec:code" ∷ "proc:manage" ∷ []

abbrev pub network_caps : List String
network_caps = "net:egress" ∷ "remote:call" ∷ []

-- The table _TOOL_CAPABILITIES.
abbrev pub tool_capabilities : List (String × List String)
tool_capabilities =
    ("read", "fs:read" ∷ [])
    ∷ ("grep", "fs:read" ∷ [])
    ∷ ("glob", "fs:read" ∷ [])
    ∷ ("write", "fs:write" ∷ [])
    ∷ ("edit", "fs:edit" ∷ [])
    ∷ ("bash", "exec:shell" ∷ [])
    ∷ ("python", "exec:code" ∷ [])
    ∷ ("http", "net:egress" ∷ [])
    ∷ ("search", "net:egress" ∷ [])
    ∷ ("web_fetch", "net:egress" ∷ [])
    ∷ ("proc_start", "proc:manage" ∷ "exec:shell" ∷ [])
    ∷ ("proc_send", "proc:manage" ∷ [])
    ∷ ("proc_read", "proc:read" ∷ [])
    ∷ ("proc_list", "proc:read" ∷ [])
    ∷ ("proc_stop", "proc:manage" ∷ [])
    ∷ []

abbrev pub pure_tools : List String
pure_tools =
    "datetime" ∷ "calculate" ∷ "notes" ∷ "memory_search" ∷ "memory_update" ∷ "create_skill"
    ∷ "skill" ∷ "think" ∷ []

abbrev pub path_keys : List String
path_keys = "file_path" ∷ "path" ∷ "source" ∷ "src" ∷ "dest" ∷ "destination" ∷ "cwd" ∷ []

-- The value of a parameter: a text, a list whose entries that are no text are `none`, or another
-- value with `str(value or "")`.
pub data Param : Type 0 where
  text : String → Param
  items : List (Option String) → String → Param
  other : String → Param

-- str(params.get(key) or "")
abbrev pub shown : Option Param → String
shown none = ""
shown (some (text s)) = s
shown (some (items ps s)) = s
shown (some (other s)) = s

-- A letter of ASCII as a small one.
abbrev pub folded : ℕ → ℕ
folded c = if leb 65 c && leb c 90 then c + 32 else c

-- s.lower() == t, for a text `t` of small letters.
unfoldable pub lower_is : String → String → Bool
lower_is String.[] String.[] = true
lower_is String.[] (String.◌∷◌ d t) = false
lower_is (String.◌∷◌ c s) String.[] = false
lower_is (String.◌∷◌ c s) (String.◌∷◌ d t) = eqb (folded (code c)) (code d) && lower_is s t

-- tuple(dict.fromkeys(xs)), after the entries that have been seen
unfoldable pub distinct : List String → List String → List String
distinct seen [] = []
distinct seen (x ∷ xs) = if within x seen then distinct seen xs else x ∷ distinct (x ∷ seen) xs

-- PolicyEngine.infer_capabilities
unfoldable pub infer_capabilities : String → List (String × Param) → List String
unfolding lower_is
infer_capabilities tool params =
    let action = shown (lookup "action" params) in
    if tool == "file_mgr"
    then if lower_is action "ls" || lower_is action "list"
      then "fs:read" ∷ []
      else if lower_is action "delete"
      then "fs:delete" ∷ []
      else if lower_is action "move" || lower_is action "mv" || lower_is action "rename"
      then "fs:move" ∷ []
      else "fs:write" ∷ []
    else elim (lookup tool tool_capabilities) [ none ↦ [] | some caps ↦ caps ]

-- The path that one key gives.
abbrev pub path_at : List (String × Param) → String → List String
path_at params key = elim (lookup key params) [
  | some (text s) ↦ if s == "" then [] else s ∷ []
  | _ ↦ []
]

unfoldable pub keyed_paths : List (String × Param) → List String → List String
keyed_paths params [] = []
keyed_paths params (k ∷ ks) = path_at params k ++ keyed_paths params ks

unfoldable pub listed_paths : List (Option String) → List String
listed_paths [] = []
listed_paths (none ∷ ps) = listed_paths ps
listed_paths (some s ∷ ps) = if s == "" then listed_paths ps else s ∷ listed_paths ps

-- The paths of the parameter "paths".
abbrev pub batch_paths : Option Param → List String
batch_paths (some (items ps s)) = listed_paths ps
batch_paths (some (text s)) = []
batch_paths (some (other s)) = []
batch_paths none = []

-- PolicyEngine.extract_paths
unfoldable pub extract_paths : List (String × Param) → List String
unfolding keyed_paths listed_paths distinct
extract_paths params =
    distinct [] (keyed_paths params path_keys ++ batch_paths (lookup "paths" params))

-- What `decide` asks of the rest: a command in small letters (str.lower, by the tables of Unicode), the
-- dangerous pattern in a command (_match_dangerous), the paths
-- in a command (extract_shell_paths), and, of a resolved path, whether it is a system path
-- (_is_system_path) and whether it lies under an allowed root.
pub record Surroundings : Type 0 where
  pub lower : String → String
  pub danger : String → Option String
  pub shell_paths : String → List String
  pub is_system_path : String → Bool
  pub is_workspace_path : String → Bool

-- PolicyDecision, without its reason.
pub record PolicyDecision : Type 0 where
  pub level : Level
  pub rule_id : String
  pub paths : List String
  pub capabilities : List String

-- requires_approval
abbrev pub requires_approval : PolicyDecision → Bool
requires_approval d = elim d.level [ ask ↦ true | allow ↦ false | deny ↦ false ]

-- _paths_outside_workspace
unfoldable pub leaves_workspace : Surroundings → List String → Bool
leaves_workspace s paths = any (λ p. not (s.is_workspace_path p)) paths

-- The rule of one mode: "mode.<mode>.<kind>".
unfoldable pub rule : Mode → String → String
unfolding concat
rule m kind = concat "mode." (concat (mode_name m) (concat "." kind))

-- The level of executing: DENY, ASK or ALLOW by mode, with the rule.
unfoldable pub execution : Mode → Bool → Level × String
unfolding rule
execution readonly outside = (deny, rule readonly "execution")
execution Mode.ask outside = (ask, rule Mode.ask "execution")
execution Mode.allow outside =
    if outside
    then (ask, rule Mode.allow "external_execution")
    else (allow, rule Mode.allow "execution")
execution unreviewed outside = (allow, rule unreviewed "execution")

unfoldable pub mutation : Mode → Bool → Level × String
unfolding rule
mutation readonly outside = (deny, rule readonly "mutation")
mutation Mode.ask outside = (ask, rule Mode.ask "mutation")
mutation Mode.allow outside =
    if outside
    then (ask, rule Mode.allow "external_mutation")
    else (allow, rule Mode.allow "mutation")
mutation unreviewed outside = (allow, rule unreviewed "mutation")

unfoldable pub network : Mode → Level × String
unfolding rule
network readonly = (ask, rule readonly "network")
network Mode.ask = (ask, rule Mode.ask "network")
network Mode.allow = (allow, rule Mode.allow "network")
network unreviewed = (allow, rule unreviewed "network")

-- A tool without a capability.
unfoldable pub unclassified : Mode → Bool → Level × String
unfolding rule
unclassified readonly is_pure =
    if is_pure then (allow, rule readonly "pure") else (deny, rule readonly "unknown")
unclassified Mode.ask is_pure =
    if is_pure then (allow, rule Mode.ask "pure") else (ask, rule Mode.ask "unknown")
unclassified Mode.allow is_pure = (allow, rule Mode.allow "pure")
unclassified unreviewed is_pure = (allow, rule unreviewed "pure")

abbrev pub is_unreviewed : Mode → Bool
is_unreviewed unreviewed = true
is_unreviewed readonly = false
is_unreviewed Mode.ask = false
is_unreviewed Mode.allow = false

-- The levels of `decide` after the hard rule, in the order of the code: of a system path, and of
-- the capabilities that the call states.
unfoldable pub choose : Mode → Bool → Bool → Bool → Bool → Bool → Bool → Bool → Level × String
choose m has_system networks executes mutates reads is_pure outside =
    if has_system && not (is_unreviewed m)
    then (ask, "path.system")
    else if networks
    then network m
    else if executes
    then execution m outside
    else if mutates
    then mutation m outside
    else if reads
    then (allow, rule m "read")
    else unclassified m is_pure

unfoldable pub judge : Surroundings → Mode → String → List String → List String → Level × String
judge s m tool caps paths =
    choose m (any s.is_system_path paths) (meets caps network_caps) (meets caps exec_caps)
      (meets caps file_mutation_caps) (meets caps file_read_caps) (within tool pure_tools)
      (leaves_workspace s paths)

-- capabilities or self.infer_capabilities(tool_name, params)
abbrev pub stated : List String → String → List (String × Param) → List String
stated [] tool params = infer_capabilities tool params
stated (c ∷ cs) tool params = c ∷ cs

-- "exec:shell" in caps and command
abbrev pub runs_shell : List String → String → Bool
runs_shell caps command = within "exec:shell" caps && not (command == "")

-- The hard rule: a command with a dangerous pattern is denied, and its paths are not looked at.
unfoldable pub harden : Option String → List String → PolicyDecision → PolicyDecision
harden none paths judged = judged
harden (some label) paths judged = record judged {
  level = deny;
  rule_id = "hard.high_risk_command";
  paths = paths;
}

-- paths, with those of a shell command
unfoldable pub all_paths : Surroundings → List String → List (String × Param) → List String
all_paths s caps params =
    let command = shown (lookup "command" params) in
    if runs_shell caps command
    then distinct [] (extract_paths params ++ s.shell_paths command)
    else extract_paths params

-- PolicyEngine.decide
unfoldable pub decide :
    Surroundings → Mode → String → List (String × Param) → List String → PolicyDecision
decide s m tool params capabilities =
    let caps = distinct [] (stated capabilities tool params) in
    let command = shown (lookup "command" params) in
    let paths = all_paths s caps params in
    let judged : PolicyDecision = record {
      level = (judge s m tool caps paths).0;
      rule_id = (judge s m tool caps paths).1;
      paths = paths;
      capabilities = caps;
    } in
    if runs_shell caps command
    then harden (s.danger (s.lower command)) (extract_paths params) judged
    else judged
