-- ===== src/TextUtil/Split.antt =====
-- gateway/textutil.py: split_text. A separator's text is matched by code points, as Python's rfind
-- does.
pub mod Laws
use learn_agent.Prelude.{
  ℕ, zero, suc, ◌+◌, ◌-◌, ◌/◌, String, Option, none, some, List, [], ◌∷◌, Bool, true, false, ◌&&◌,
  ◌==◌, if◌then◌else◌, leb, ltb, prefix, text_length, is_empty, drop_text, starts_with,
}

-- remaining.rfind(sep, 0, n): the greatest index at which the separator lies within the first n
-- characters; `i` is the index of the text that is left
unfoldable pub rfind_from : String → ℕ → String → ℕ → Option ℕ
rfind_from sep i String.[] n =
    if starts_with sep String.[] && leb (i + text_length sep) n then some i else none
rfind_from sep i (String.◌∷◌ c s) n = elim (rfind_from sep (suc i) s n) [
  | some j ↦ some j
  | none ↦ if starts_with sep (String.◌∷◌ c s) && leb (i + text_length sep) n then some i else none
]

abbrev pub rfind : String → String → ℕ → Option ℕ
rfind sep s n = rfind_from sep 0 s n

-- A break after the separator, if the last one lies beyond a third of the size.
unfoldable pub break_after : String → ℕ → String → Option ℕ
break_after sep max_len s = elim (rfind sep s max_len) [
  | none ↦ none
  | some i ↦ if ltb (max_len / 3) i then some (i + text_length sep) else none
]

-- The separators in the order of preference: paragraph, line, end of a sentence.
abbrev pub separators : List String
separators = "\n\n" ∷ "\n" ∷ "。" ∷ "！" ∷ "？" ∷ ". " ∷ "! " ∷ "? " ∷ []

unfoldable pub first_break : List String → ℕ → String → Option ℕ
first_break [] max_len s = none
first_break (sep ∷ seps) max_len s = elim (break_after sep max_len s) [
  | some i ↦ some i
  | none ↦ first_break seps max_len s
]

-- `cut`, which is max_len where no break is found
unfoldable pub cut_of : ℕ → String → ℕ
cut_of max_len s = elim (first_break separators max_len s) [ none ↦ max_len | some i ↦ i ]

-- The loop of split_text, on fuel; without fuel there is no answer.
unfoldable pub chunks : ℕ → ℕ → String → Option (List String)
chunks zero max_len s = none
chunks (suc fuel) max_len s =
    let cut = cut_of max_len s in
    let rest = chunks fuel max_len (drop_text cut s) in
    if is_empty s
    then some []
    else if leb (text_length s) max_len
    then some (s ∷ [])
    else elim rest [ none ↦ none | some more ↦ some (prefix cut s ∷ more) ]

-- Fuel for one turn per character and the last.
unfoldable pub split_text : ℕ → String → Option (List String)
split_text max_len s =
    if leb (text_length s) max_len then some (s ∷ []) else chunks (suc (text_length s)) max_len s
