-- ===== src/Runtime/Cancellation.antt =====
-- core/runtime/cancellation.py: CancellationToken. What stands under the token's lock is one step; a
-- callback is a number, and what it does, or raises, changes no token.
pub mod Dispatch
use learn_agent.Prelude.{
  ℕ, String, Bool, true, false, List, [], ◌∷◌, ◌++◌, map, any, Result, ok, err, runtime_error,
  if◌then◌else◌, ◌==◌, ◌||◌,
}

-- The fields `_event`, `_reason` and `_callbacks`.
pub record CancellationToken : Type 0 where
  pub is_set : Bool
  pub reason : String
  pub callbacks : List ℕ

abbrev pub new_token : CancellationToken
new_token = record { is_set = false; reason = ""; callbacks = [] }

-- A call of a callback with a reason.
abbrev pub Dispatches : Type 0
Dispatches = List (ℕ × String)

-- CancellationToken.cancel: its answer, the calls that it makes, and the token after it.
unfoldable pub cancel : String → CancellationToken → Bool × Dispatches × CancellationToken
cancel reason t =
    if t.is_set
    then (false, [], t)
    else (true, map (λ c. (c, reason)) t.callbacks, record t { is_set = true; reason = reason })

-- CancellationToken.add_callback: the calls that it makes, and the token after it.
unfoldable pub add_callback : ℕ → CancellationToken → Dispatches × CancellationToken
add_callback callback t =
    if t.is_set
    then ((callback, t.reason) ∷ [], t)
    else ([], record t { callbacks = t.callbacks ++ callback ∷ [] })

-- A token with its ancestors, the nearest first.
abbrev pub Chain : Type 0
Chain = List CancellationToken

-- CancellationToken.is_cancelled
unfoldable pub is_cancelled : Chain → Bool
is_cancelled [] = false
is_cancelled (t ∷ parents) = t.is_set || is_cancelled parents

-- CancellationToken.reason
unfoldable pub reason_of : Chain → String
unfolding is_cancelled
reason_of [] = ""
reason_of (t ∷ parents) =
    let above = reason_of parents in
    if t.is_set then t.reason else if is_cancelled parents then above else ""

-- CancellationState, of CancellationToken.state
unfoldable pub state : Chain → Bool × String
unfolding is_cancelled reason_of
state c = (is_cancelled c, reason_of c)

-- CancellationToken.checkpoint, with the message of the TaskCancelled that it raises.
pub data Checkpoint : Type 0 where
  passes : Checkpoint
  raises : String → Checkpoint

unfoldable pub checkpoint : Chain → Checkpoint
unfolding is_cancelled reason_of
checkpoint c =
    if is_cancelled c
    then raises (if reason_of c == "" then "cancelled" else reason_of c)
    else passes

-- CancellationToken.child
abbrev pub child : Chain → Chain
child c = new_token ∷ c
