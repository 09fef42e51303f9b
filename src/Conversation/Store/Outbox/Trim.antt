-- ===== src/Conversation/Store/Outbox/Trim.antt =====
-- gateway/conversation/store.py: the size of the outbox after trim_outbox_backlog.
use learn_agent.Prelude.{
  ℕ, zero, suc, ◌-◌, ◌≡◌, ◌≤◌, refl, ap, inl, inr, String, Bool, true, not, ◌&&◌, List, [], ◌∷◌,
  arith, Bool-cases, leb, keep, length, count, one, count-cons, count-take, count-order_by,
  count-split, length-order_by, take, order_by, All, min, eq_refl,
}
use learn_agent.Conversation.Model.{OutboxEvent, Tables}
use learn_agent.Conversation.Store.Records.{count_rows}
use learn_agent.Conversation.Store.Outbox.{
  is_unpublished, created, unpublished, list_unpublished_outbox, is_among, trim_outbox_backlog,
}

module _ {ℓ} {A : Type ℓ} where
  All-map : (P Q : A → Type 0) (xs : List A) → ((x : A) → P x → Q x) → All P xs → All Q xs
  All-map P Q [] h all = tt
  All-map P Q (x ∷ xs) h all = (h x all.0, All-map P Q xs h all.1)

  count-All : (p : A → Bool) (xs : List A) → All (λ x. p x ≡ true) xs → count p xs ≡ length xs
  count-All p [] all = refl
  count-All p (x ∷ xs) all = omega (arith, count-cons p x xs, ap one all.0, count-All p xs all.1)

  count-keep : (p q : A → Bool) (xs : List A) → count (λ x. p x && q x) xs ≡ count q (keep p xs)
  count-keep p q [] = refl
  count-keep p q (x ∷ xs) = ground (arith, count-keep p q xs)

  length-take_lem : (n : ℕ) (xs : List A) → length (take n xs) ≡ min n (length xs)
  length-take_lem zero xs = omega arith
  length-take_lem (suc n) [] = omega arith
  length-take_lem (suc n) (x ∷ xs) = omega (arith, length-take_lem n xs)

-- Every row is among the rows.
All-among : (rows : List (String × OutboxEvent)) → All (λ row. is_among rows row ≡ true) rows
All-among [] = tt
All-among (row ∷ rows) = (
  ground (arith, eq_refl row.0),
  All-map (λ r. is_among rows r ≡ true) (λ r. is_among (row ∷ rows) r ≡ true) rows
      (λ r among. ground arith) (All-among rows),
)

count-values :
    (test : OutboxEvent → Bool) (rows : List (String × OutboxEvent))
    → count_rows test rows ≡ count (λ row. test row.1) rows
count-values test [] = refl
count-values test ((id, event) ∷ rows) = ground (arith, count-values test rows)

-- The oldest k unpublished rows that are deleted are k rows, and are unpublished.
trimmed-le :
    (k : ℕ) (rows : List (String × OutboxEvent))
    → k ≤ count (λ row. is_unpublished row.1) rows
    → k ≤ count (λ row. is_unpublished row.1 && is_among (take k (unpublished rows)) row) rows
unfolding unpublished
trimmed-le k rows h =
    let waiting = keep (λ row. is_unpublished row.1) rows in
    let oldest = take k (order_by created waiting) in
    omega (
      arith,
      count-keep (λ row. is_unpublished row.1) (is_among oldest) rows,
      count-order_by (is_among oldest) created waiting,
      count-take (is_among oldest) k (order_by created waiting),
      count-All (is_among oldest) oldest (All-among oldest),
      length-take_lem k (order_by created waiting),
      length-order_by created waiting,
    )

-- trim_outbox_backlog leaves at most the given number of unpublished events.
pub trim_outbox_backlog-bounded :
    (most : ℕ) (db : Tables)
    → count_rows is_unpublished (trim_outbox_backlog most db).1.outbox ≤ most
unfolding trim_outbox_backlog list_unpublished_outbox
trim_outbox_backlog-bounded most db =
    elim (Bool-cases (leb (count_rows is_unpublished db.outbox) most)) [
      | inl few ↦ rw few (ground arith)
      | inr many ↦ rw many (
          let k = count_rows is_unpublished db.outbox - most in
          let oldest = take k (unpublished db.outbox) in
          let total = count-values is_unpublished db.outbox in
          omega (
            arith,
            total,
            count-values is_unpublished (keep (λ row. not (is_among oldest row)) db.outbox),
            count-split (λ row. is_unpublished row.1) (is_among oldest) db.outbox,
            trimmed-le k db.outbox (omega (arith, total)),
          ))
    ]
