-- ===== src/Examples/Texts.antt =====
-- Runs of the splitting of texts (gateway/textutil.py).
use learn_agent.Prelude.{
  ◌≡◌, refl, String, some, List, [], ◌∷◌, All, arith, join, text_length, is_empty, prefix,
  drop_text, starts_with,
}
use learn_agent.TextUtil.Split.{split_text, chunks, cut_of, first_break, break_after, rfind_from}
use learn_agent.TextUtil.Split.Laws.{split_text-join, split_text-ends, IsShort}

abbrev three_lines : String
three_lines = "first\nsecond\nthird"

abbrev pieces : List String
pieces = "first\n" ∷ "second\n" ∷ "third" ∷ []

split_three : split_text 8 three_lines ≡ some pieces
unfolding split_text chunks cut_of first_break break_after rfind_from text_length is_empty prefix
    drop_text starts_with
split_three = refl

split_text-join_example : join pieces ≡ three_lines
split_text-join_example = split_text-join 8 three_lines pieces split_three

split_text-ends_example :
    (cs : List String) × (split_text 8 three_lines ≡ some cs) × All (IsShort 8) cs
split_text-ends_example = split_text-ends 8 three_lines (omega arith)
