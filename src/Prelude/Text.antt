-- ===== src/Prelude/Text.antt =====
-- Python's `str.strip`, `s[:n]` and concatenation on native texts.
use Prim.Native.Nat.{ℕ, zero, suc}
use Prim.Native.Char.{code}
use Prim.Native.String.{String}
use mathlib.Core.Path.{◌≡◌, refl, ap, ◌∙◌}
use mathlib.Core.Logic.{inl, inr}
use mathlib.Core.List.{List, [], ◌∷◌}
use mathlib.Core.Bool.{Bool, true, false, ◌&&◌, ◌||◌}
use learn_agent.Prelude.Tests.{leb, eqb, if◌then◌else◌, Bool-cases}

-- `str.isspace` of one character, by its code point.
abbrev is_space : ℕ → Bool
is_space c =
    (leb 9 c && leb c 13)
    || (leb 28 c && leb c 32)
    || eqb c 133
    || eqb c 160
    || eqb c 5760
    || (leb 8192 c && leb c 8202)
    || eqb c 8232
    || eqb c 8233
    || eqb c 8239
    || eqb c 8287
    || eqb c 12288

unfoldable pub is_empty : String → Bool
is_empty String.[] = true
is_empty (String.◌∷◌ c s) = false

pub lstrip : String → String
lstrip String.[] = String.[]
lstrip (String.◌∷◌ c s) = if is_space (code c) then lstrip s else String.◌∷◌ c s

pub rstrip : String → String
unfolding is_empty
rstrip String.[] = String.[]
rstrip (String.◌∷◌ c s) =
    let r = rstrip s in if is_empty r && is_space (code c) then String.[] else String.◌∷◌ c r

-- s.strip()
unfoldable pub strip : String → String
unfolding lstrip rstrip
strip s = rstrip (lstrip s)

-- len(s)
unfoldable pub text_length : String → ℕ
text_length String.[] = 0
text_length (String.◌∷◌ c s) = suc (text_length s)

-- s[:n]
unfoldable pub prefix : ℕ → String → String
prefix zero s = String.[]
prefix (suc n) String.[] = String.[]
prefix (suc n) (String.◌∷◌ c s) = String.◌∷◌ c (prefix n s)

-- s[n:]
unfoldable pub drop_text : ℕ → String → String
drop_text zero s = s
drop_text (suc n) String.[] = String.[]
drop_text (suc n) (String.◌∷◌ c s) = drop_text n s

-- s.startswith(sep)
unfoldable pub starts_with : String → String → Bool
starts_with String.[] s = true
starts_with (String.◌∷◌ c sep) String.[] = false
starts_with (String.◌∷◌ c sep) (String.◌∷◌ d s) = eqb (code c) (code d) && starts_with sep s

-- s + t
unfoldable pub concat : String → String → String
concat String.[] t = t
concat (String.◌∷◌ c s) t = String.◌∷◌ c (concat s t)

-- The texts one after the other.
abbrev pub join : List String → String
join [] = ""
join (s ∷ ss) = concat s (join ss)

pub concat-empty : (s : String) → concat s "" ≡ s
unfolding concat
concat-empty String.[] = refl
concat-empty (String.◌∷◌ c s) = ap (String.◌∷◌ c) (concat-empty s)

pub concat_assoc : (s t u : String) → concat (concat s t) u ≡ concat s (concat t u)
unfolding concat
concat_assoc String.[] t u = refl
concat_assoc (String.◌∷◌ c s) t u = ap (String.◌∷◌ c) (concat_assoc s t u)

-- Does the text begin with a space?
abbrev starts_blank : String → Bool
starts_blank String.[] = false
starts_blank (String.◌∷◌ c s) = is_space (code c)

lstrip-solid : (s : String) → starts_blank s ≡ false → lstrip s ≡ s
unfolding lstrip
lstrip-solid String.[] h = refl
lstrip-solid (String.◌∷◌ c s) h = rw h refl

starts_blank-lstrip : (s : String) → starts_blank (lstrip s) ≡ false
unfolding lstrip
starts_blank-lstrip String.[] = refl
starts_blank-lstrip (String.◌∷◌ c s) = elim (Bool-cases (is_space (code c))) [
  | inl e ↦ rw e (starts_blank-lstrip s)
  | inr e ↦ rw e e
]

starts_blank-rstrip : (s : String) → starts_blank s ≡ false → starts_blank (rstrip s) ≡ false
unfolding rstrip
starts_blank-rstrip String.[] h = refl
starts_blank-rstrip (String.◌∷◌ c s) h = elim (Bool-cases (is_empty (rstrip s))) [
  | inl e ↦ rw (e, h) h
  | inr e ↦ rw e h
]

rstrip_idem : (s : String) → rstrip (rstrip s) ≡ rstrip s
unfolding rstrip
rstrip_idem String.[] = refl
rstrip_idem (String.◌∷◌ c s) = elim (Bool-cases (is_empty (rstrip s) && is_space (code c))) [
  | inl e ↦ rw e refl
  | inr e ↦ rw (e, rstrip_idem s, e) refl
]

-- s.strip().strip() == s.strip()
pub strip_idem : (s : String) → strip (strip s) ≡ strip s
unfolding strip
strip_idem s =
    ap rstrip
      (lstrip-solid (rstrip (lstrip s)) (starts_blank-rstrip (lstrip s) (starts_blank-lstrip s)))
    ∙ rstrip_idem (lstrip s)
