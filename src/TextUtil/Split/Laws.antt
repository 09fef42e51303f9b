-- ===== src/TextUtil/Split/Laws.antt =====
-- gateway/textutil.py: what split_text makes of a text.
use learn_agent.Prelude.{
  ℕ, zero, suc, ◌+◌, ◌-◌, ◌≡◌, ◌≤◌, ◌<◌, refl, ap, ◌∙◌, inl, inr, String, some, List, [], ◌∷◌, true,
  false, arith, All, Bool-cases, Option-cases, leb, prefix, text_length, is_empty, drop_text,
  concat, join, concat-empty,
}
use learn_agent.TextUtil.Split.{
  rfind_from, rfind, break_after, separators, first_break, cut_of, chunks, split_text,
}

prefix-drop : (n : ℕ) (s : String) → concat (prefix n s) (drop_text n s) ≡ s
unfolding prefix drop_text concat
prefix-drop zero s = refl
prefix-drop (suc n) String.[] = refl
prefix-drop (suc n) (String.◌∷◌ c s) = ap (String.◌∷◌ c) (prefix-drop n s)

is_empty_lem : (s : String) → is_empty s ≡ true → s ≡ ""
unfolding is_empty
is_empty_lem String.[] h = refl
is_empty_lem (String.◌∷◌ c s) h = absurd (cc)

not_empty_lem : (s : String) → is_empty s ≡ false → 0 < text_length s
unfolding is_empty text_length
not_empty_lem String.[] h = absurd (cc)
not_empty_lem (String.◌∷◌ c s) h = omega arith

length-prefix : (n : ℕ) (s : String) → text_length (prefix n s) ≤ n
unfolding text_length prefix
length-prefix zero s = omega arith
length-prefix (suc n) String.[] = omega arith
length-prefix (suc n) (String.◌∷◌ c s) = omega (arith, length-prefix n s)

length-drop_text : (n : ℕ) (s : String) → text_length (drop_text n s) ≡ text_length s - n
unfolding text_length drop_text
length-drop_text zero s = omega arith
length-drop_text (suc n) String.[] = omega arith
length-drop_text (suc n) (String.◌∷◌ c s) = omega (arith, length-drop_text n s)

-- A separator that is found lies within the first n characters.
rfind_from-le :
    (sep : String) (i : ℕ) (s : String) (n j : ℕ)
    → rfind_from sep i s n ≡ some j
    → j + text_length sep ≤ n
unfolding rfind_from
rfind_from-le sep i String.[] n j h = ground arith
rfind_from-le sep i (String.◌∷◌ c s) n j h = elim (Option-cases (rfind_from sep (suc i) s n)) [
  | inl e ↦ ground arith
  | inr (k, e) ↦ rfind_from-le sep (suc i) s n j (e ∙ rw e at h)
]

break_after-bounds :
    (sep : String) (max_len : ℕ) (s : String) (i : ℕ)
    → break_after sep max_len s ≡ some i
    → (0 < i) × (i ≤ max_len)
unfolding break_after
break_after-bounds sep max_len s i h = elim (Option-cases (rfind sep s max_len)) [
  | inl e ↦ absurd (ground arith)
  | inr (j, e) ↦ let below = rfind_from-le sep 0 s max_len j e in ground arith
]

first_break-bounds :
    (seps : List String) (max_len : ℕ) (s : String) (i : ℕ)
    → first_break seps max_len s ≡ some i
    → (0 < i) × (i ≤ max_len)
unfolding first_break
first_break-bounds [] max_len s i h = absurd (cc)
first_break-bounds (sep ∷ seps) max_len s i h = elim (Option-cases (break_after sep max_len s)) [
  | inl e ↦ first_break-bounds seps max_len s i (rw (e, first_break) at h)
  | inr (j, e) ↦ break_after-bounds sep max_len s i (e ∙ rw (e, first_break) at h)
]

-- Every turn cuts off at least one character, and at most the size.
cut_of-bounds :
    (max_len : ℕ) (s : String) → 0 < max_len → (0 < cut_of max_len s) × (cut_of max_len s ≤ max_len)
unfolding cut_of
cut_of-bounds max_len s h = elim (Option-cases (first_break separators max_len s)) [
  | inl e ↦ rw (e, cut_of) (h, omega arith)
  | inr (i, e) ↦ rw (e, cut_of) (first_break-bounds separators max_len s i e)
]

module _ (max_len : ℕ) where
  chunks-join :
      (fuel : ℕ) (s : String) (cs : List String) → chunks fuel max_len s ≡ some cs → join cs ≡ s
  unfolding chunks
  chunks-join zero s cs h = absurd (cc)
  chunks-join (suc fuel) s cs h = elim (Bool-cases (is_empty s)) [
    | inl e ↦ ground (arith, is_empty_lem s)
    | inr e ↦ elim (Bool-cases (leb (text_length s) max_len)) [
      | inl short ↦ ground (arith, concat-empty s)
      | inr long ↦ elim (Option-cases (chunks fuel max_len (drop_text (cut_of max_len s) s))) [
        | inl stuck ↦ absurd (ground arith)
        | inr (more, rest) ↦ ground (
          arith,
          chunks-join fuel (drop_text (cut_of max_len s) s) more rest,
          prefix-drop (cut_of max_len s) s,
        )
      ]
    ]
  ]

  chunks-ends :
      (fuel : ℕ) (s : String)
      → 0 < max_len
      → text_length s < fuel
      → (cs : List String) × (chunks fuel max_len s ≡ some cs)
  unfolding chunks
  chunks-ends zero s h enough = absurd (omega arith)
  chunks-ends (suc fuel) s h enough = elim (Bool-cases (is_empty s)) [
    | inl e ↦ ([], ground arith)
    | inr e ↦ elim (Bool-cases (leb (text_length s) max_len)) [
      | inl short ↦ (s ∷ [], ground arith)
      | inr long ↦
          let cut = cut_of max_len s in
          let (more, rest) =
            chunks-ends fuel (drop_text cut s) h (
              omega
                (arith, length-drop_text cut s, cut_of-bounds max_len s h, not_empty_lem s e)) in
          (prefix cut s ∷ more, ground arith)
    ]
  ]

  abbrev pub IsShort : String → Type 0
  IsShort s = text_length s ≤ max_len

  chunks-All-IsShort :
      (fuel : ℕ) (s : String) (cs : List String)
      → 0 < max_len
      → chunks fuel max_len s ≡ some cs
      → All IsShort cs
  unfolding chunks
  chunks-All-IsShort zero s cs h e = absurd (cc)
  chunks-All-IsShort (suc fuel) s cs h found = elim (Bool-cases (is_empty s)) [
    | inl e ↦ ground arith
    | inr e ↦ elim (Bool-cases (leb (text_length s) max_len)) [
      | inl short ↦ ground arith
      | inr long ↦ elim (Option-cases (chunks fuel max_len (drop_text (cut_of max_len s) s))) [
        | inl stuck ↦ absurd (ground arith)
        | inr (more, rest) ↦
            let below = chunks-All-IsShort fuel (drop_text (cut_of max_len s) s) more h rest in
            let size = length-prefix (cut_of max_len s) s in
            let cut = cut_of-bounds max_len s h in ground arith
      ]
    ]
  ]

-- The pieces of a text that was split, one after the other, are the text.
pub split_text-join :
    (max_len : ℕ) (s : String) (cs : List String) → split_text max_len s ≡ some cs → join cs ≡ s
unfolding split_text
split_text-join max_len s cs h = elim (Bool-cases (leb (text_length s) max_len)) [
  | inl short ↦ ground (arith, concat-empty s)
  | inr long ↦ ground (arith, chunks-join max_len (suc (text_length s)) s cs)
]

-- For a size of at least one, splitting gives pieces, each no longer than the size: the loop ends
-- within one turn more than the text has characters.
pub split_text-ends :
    (max_len : ℕ) (s : String)
    → 0 < max_len
    → (cs : List String) × (split_text max_len s ≡ some cs) × All (IsShort max_len) cs
unfolding split_text
split_text-ends max_len s h = elim (Bool-cases (leb (text_length s) max_len)) [
  | inl short ↦ (s ∷ [], ground arith, ground arith)
  | inr long ↦
      let (cs, e) = chunks-ends max_len (suc (text_length s)) s h (omega arith) in
      (cs, ground arith, chunks-All-IsShort max_len (suc (text_length s)) s cs h e)
]
