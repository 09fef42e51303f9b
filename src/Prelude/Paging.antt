-- ===== src/Prelude/Paging.antt =====
-- An answer in a strict order, read in pages that each begin after the last row of the one before.
use Prim.Native.Nat.{ℕ, zero, suc, ◌≤◌}
use mathlib.Core.Path.{◌≡◌, refl, sym, ap}
use mathlib.Core.Logic.{inl, inr}
use mathlib.Core.Bool.{Bool, true, false}
use mathlib.Core.Option.{Option, none, some}
use mathlib.Core.List.{List, [], ◌∷◌, ◌++◌}
use native.Mathlib.Omega.{arith}
use learn_agent.Prelude.Tests.{if◌then◌else◌, Bool-cases}
use learn_agent.Prelude.Lists.{All, keep, length}
use learn_agent.Prelude.Order.{take}

module _ {ℓ} {A : Type ℓ} where
  abbrev pub last : List A → Option A
  last [] = none
  last (x ∷ xs) = elim (last xs) [ none ↦ some x | some y ↦ some y ]

  abbrev pub reversed : List A → List A
  reversed [] = []
  reversed (x ∷ xs) = reversed xs ++ (x ∷ [])

  pub append-nil : (xs : List A) → xs ++ [] ≡ xs
  append-nil [] = refl
  append-nil (x ∷ xs) = ap (◌∷◌ x) (append-nil xs)

  pub append_assoc : (xs ys zs : List A) → (xs ++ ys) ++ zs ≡ xs ++ (ys ++ zs)
  append_assoc [] ys zs = refl
  append_assoc (x ∷ xs) ys zs = ap (◌∷◌ x) (append_assoc xs ys zs)

  pub reversed-append : (xs ys : List A) → reversed (xs ++ ys) ≡ reversed ys ++ reversed xs
  reversed-append [] ys = sym (append-nil (reversed ys))
  reversed-append (x ∷ xs) ys =
      rw (reversed-append xs ys) (append_assoc (reversed ys) (reversed xs) (x ∷ []))

  module _ (precedes : A → A → Bool) where
    -- ORDER BY: the row goes before the first that it precedes.
    unfoldable pub place_by : A → List A → List A
    place_by x [] = x ∷ []
    place_by x (y ∷ ys) = if precedes x y then x ∷ y ∷ ys else y ∷ place_by x ys

    unfoldable pub sort_by : List A → List A
    sort_by [] = []
    sort_by (x ∷ xs) = place_by x (sort_by xs)

    abbrev pub Ordered : List A → Type ℓ
    Ordered [] = Unit
    Ordered (x ∷ xs) = All (λ y. precedes x y ≡ true) xs × Ordered xs

    All-map {κ μ} :
        {P : A → Type κ} {Q : A → Type μ}
        → ((x : A) → P x → Q x)
        → (xs : List A) → All P xs
        → All Q xs
    All-map f [] h = tt
    All-map f (x ∷ xs) h = (f x h.0, All-map f xs h.1)

    All-middle {κ} :
        (P : A → Type κ) (before : List A) (x : A) (after : List A)
        → All P (before ++ (x ∷ after))
        → P x
    All-middle P [] x after h = h.0
    All-middle P (y ∷ before) x after h = All-middle P before x after h.1

    -- Of any two rows one precedes the other.
    abbrev pub Apart : List A → Type ℓ
    Apart [] = Unit
    Apart (x ∷ xs) = All (λ y. precedes x y ≡ false → precedes y x ≡ true) xs × Apart xs

    place_by-All {κ} :
        (P : A → Type κ) (x : A) (ys : List A) → P x → All P ys → All P (place_by x ys)
    unfolding place_by
    place_by-All P x [] p h = (p, tt)
    place_by-All P x (y ∷ ys) p h = elim (Bool-cases (precedes x y)) [
      | inl e ↦ rw e (p, h)
      | inr e ↦ rw e (h.0, place_by-All P x ys p h.1)
    ]

    pub sort_by-All {κ} : (P : A → Type κ) (xs : List A) → All P xs → All P (sort_by xs)
    unfolding sort_by
    sort_by-All P [] h = tt
    sort_by-All P (x ∷ xs) h = place_by-All P x (sort_by xs) h.0 (sort_by-All P xs h.1)

    place_by-Ordered :
        ((x y z : A) → precedes x y ≡ true → precedes y z ≡ true → precedes x z ≡ true)
        → (x : A) (ys : List A) → All (λ y. precedes x y ≡ false → precedes y x ≡ true) ys
        → Ordered ys
        → Ordered (place_by x ys)
    unfolding place_by
    place_by-Ordered trans x [] apart h = (tt, tt)
    place_by-Ordered trans x (y ∷ ys) apart h = elim (Bool-cases (precedes x y)) [
      | inl e ↦ rw e ((e, All-map (λ z. trans x y z e) ys h.0), h)
      | inr e ↦ rw e (
        place_by-All (λ z. precedes y z ≡ true) x ys (apart.0 e) h.0,
        place_by-Ordered trans x ys apart.1 h.1,
      )
    ]

    pub sort_by-Ordered :
        ((x y z : A) → precedes x y ≡ true → precedes y z ≡ true → precedes x z ≡ true)
        → (xs : List A) → Apart xs
        → Ordered (sort_by xs)
    unfolding sort_by
    sort_by-Ordered trans [] apart = tt
    sort_by-Ordered trans (x ∷ xs) apart =
        place_by-Ordered trans x (sort_by xs) (sort_by-All _ xs apart.0)
          (sort_by-Ordered trans xs apart.1)

    keep-All : (p : A → Bool) (xs : List A) → All (λ x. p x ≡ true) xs → keep p xs ≡ xs
    keep-All p [] h = refl
    keep-All p (x ∷ xs) h = rw h.0 (ap (◌∷◌ x) (keep-All p xs h.1))

    -- The rows after a row of an ordered answer are those that come after it.
    pub keep-after :
        ((x y : A) → precedes x y ≡ true → precedes y x ≡ false)
        → ((x : A) → precedes x x ≡ false)
        → (before : List A) (x : A) (after : List A) → Ordered (before ++ (x ∷ after))
        → keep (precedes x) (before ++ (x ∷ after)) ≡ after
    keep-after asym irrefl [] x after h = rw (irrefl x) (keep-All (precedes x) after h.0)
    keep-after asym irrefl (y ∷ before) x after h =
        rw (asym y x (All-middle (λ z. precedes y z ≡ true) before x after h.0))
          (keep-after asym irrefl before x after h.1)

  -- A page that is not empty ends with a row, after which the rest begins.
  pub take-parts :
      (n : ℕ) (x : A) (xs : List A)
      → (before : List A) × (y : A) × (after : List A) × (x ∷ xs ≡ before ++ (y ∷ after))
        × (take (suc n) (x ∷ xs) ≡ before ++ (y ∷ []))
        × (last (take (suc n) (x ∷ xs)) ≡ some y)
        × (suc (length after) ≤ suc (length xs))
  take-parts zero x xs = ([], x, xs, refl, refl, refl, omega arith)
  take-parts (suc n) x [] = ([], x, [], refl, refl, refl, omega arith)
  take-parts (suc n) x (y ∷ ys) =
      let (before, z, after, whole, page, end, less) = take-parts n y ys in
      (x ∷ before, z, after, ap (◌∷◌ x) whole, ap (◌∷◌ x) page, ground arith, omega arith)

  pub All-keep {κ} : (P : A → Type κ) (p : A → Bool) (xs : List A) → All P xs → All P (keep p xs)
  All-keep P p [] h = tt
  All-keep P p (x ∷ xs) h = elim (Bool-cases (p x)) [
    | inl e ↦ rw e (h.0, All-keep P p xs h.1)
    | inr e ↦ rw e (All-keep P p xs h.1)
  ]
