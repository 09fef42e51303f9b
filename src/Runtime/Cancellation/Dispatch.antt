-- ===== src/Runtime/Cancellation/Dispatch.antt =====
-- CancellationToken (core/runtime/cancellation.py): each callback runs once, whatever the order in
-- which threads take the lock.
use learn_agent.Prelude.{
  append-nil, append_assoc, ℕ, ◌≡◌, refl, sym, ap, ◌∙◌, String, true, false, Option, none, some,
  List, [], ◌∷◌, ◌++◌, map,
}
use learn_agent.Runtime.Cancellation.{
  CancellationToken, new_token, Dispatches, cancel, add_callback,
}

-- An operation of some thread, at the moment at which it takes the lock.
pub data Turn : Type 0 where
  cancels : String → Turn
  adds : ℕ → Turn

-- The token and the calls made so far, after one turn and after several.
abbrev pub turn : Turn → Dispatches × CancellationToken → Dispatches × CancellationToken
turn (cancels reason) (log, t) = let (_, calls, t') = cancel reason t in (log ++ calls, t')
turn (adds callback) (log, t) = let (calls, t') = add_callback callback t in (log ++ calls, t')

abbrev pub turns : List Turn → Dispatches × CancellationToken → Dispatches × CancellationToken
turns [] s = s
turns (o ∷ os) s = turns os (turn o s)

abbrev pub added : List Turn → List ℕ
added [] = []
added (cancels reason ∷ os) = added os
added (adds callback ∷ os) = callback ∷ added os

abbrev pub first_reason : List Turn → Option String
first_reason [] = none
first_reason (cancels reason ∷ os) = some reason
first_reason (adds callback ∷ os) = first_reason os

-- The calls that are due: of every callback added, with the reason of the first cancellation.
abbrev pub due : Option String → List ℕ → Dispatches
due none callbacks = []
due (some reason) callbacks = map (λ c. (c, reason)) callbacks

map-append {ℓ κ} :
    {A : Type ℓ} {B : Type κ} (f : A → B) (xs ys : List A) → map f (xs ++ ys) ≡ map f xs ++ map f ys
map-append f [] ys = refl
map-append f (x ∷ xs) ys = ap (λ l. f x ∷ l) (map-append f xs ys)

-- A token that is set calls every callback that comes.
after_cancel :
    (os : List Turn) (log : Dispatches) (reason : String) (callbacks : List ℕ)
    → (turns os (log, record { is_set = true; reason = reason; callbacks = callbacks })).0
      ≡ log ++ map (λ c. (c, reason)) (added os)
unfolding cancel add_callback
after_cancel [] log reason callbacks = sym (append-nil log)
after_cancel (cancels again ∷ os) log reason callbacks =
    after_cancel os (log ++ []) reason callbacks
    ∙ ap (λ l. l ++ map (λ c. (c, reason)) (added os)) (append-nil log)
after_cancel (adds callback ∷ os) log reason callbacks =
    after_cancel os (log ++ (callback, reason) ∷ []) reason callbacks
    ∙ append_assoc log ((callback, reason) ∷ []) (map (λ c. (c, reason)) (added os))

before_cancel :
    (os : List Turn) (callbacks : List ℕ)
    → (turns os ([], record { is_set = false; reason = ""; callbacks = callbacks })).0
      ≡ due (first_reason os) (callbacks ++ added os)
unfolding cancel add_callback
before_cancel [] callbacks = refl
before_cancel (cancels reason ∷ os) callbacks =
    after_cancel os (map (λ c. (c, reason)) callbacks) reason callbacks
    ∙ sym (map-append (λ c. (c, reason)) callbacks (added os))
before_cancel (adds callback ∷ os) callbacks =
    before_cancel os (callbacks ++ callback ∷ [])
    ∙ ap (due (first_reason os)) (append_assoc callbacks (callback ∷ []) (added os))

-- Over any sequence of cancellations and additions on a new token, where the calls that one of them
-- makes are counted with it, the callbacks are called in the order in which they were added, each as
-- often as it was added and with the reason of the first cancellation, and none is called where there
-- is no cancellation.
pub dispatched_once :
    (os : List Turn) → (turns os ([], new_token)).0 ≡ due (first_reason os) (added os)
dispatched_once os = before_cancel os []
