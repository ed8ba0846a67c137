-- ===== src/Queues/Skipped.antt =====
-- Which messages `add_messages_to_queue` (cloudigrade/util/aws/sqs.py) sends.
use cloudigrade.Prelude.{
  ℕ, zero, suc, ◌+◌, ◌-◌, ◌*◌, ◌≤◌, ◌≡◌, refl, ◌∙◌, sym, ap, List, [], ◌∷◌, ◌++◌, map, length, take,
  arith,
}
use cloudigrade.Queues.{drop, batch_count, batches, add_messages_to_queue}

module _ {ℓ} {A : Type ℓ} where
  abbrev pub concat : List (List A) → List A
  concat [] = []
  concat (xs ∷ xss) = xs ++ concat xss

  -- The list without each tenth element, where the next one to be left out comes after `n` others.
  unfoldable pub without_tenth : ℕ → List A → List A
  without_tenth n [] = []
  without_tenth zero (x ∷ xs) = without_tenth 9 xs
  without_tenth (suc n) (x ∷ xs) = x ∷ without_tenth n xs

  without_tenth-take :
      (n : ℕ) (xs : List A) → without_tenth n xs ≡ take n xs ++ without_tenth 9 (drop (suc n) xs)
  unfolding without_tenth
  without_tenth-take zero [] = refl
  without_tenth-take (suc n) [] = refl
  without_tenth-take zero (x ∷ xs) = refl
  without_tenth-take (suc n) (x ∷ xs) = ap (λ ys. x ∷ ys) (without_tenth-take n xs)

  length-drop : (n : ℕ) (xs : List A) → length (drop n xs) ≡ length xs - n
  length-drop zero xs = omega arith
  length-drop (suc n) [] = omega arith
  length-drop (suc n) (x ∷ xs) = ground (arith, length-drop n xs)

  drop-nil : (n : ℕ) → drop {A = A} n [] ≡ []
  drop-nil zero = refl
  drop-nil (suc n) = refl

  drop-drop : (m n : ℕ) (xs : List A) → drop m (drop n xs) ≡ drop (n + m) xs
  drop-drop m zero xs = ap (λ k. drop k xs) (omega arith)
  drop-drop m (suc n) [] = drop-nil m ∙ sym (drop-nil (suc n + m))
  drop-drop m (suc n) (x ∷ xs) =
      let shift : suc (n + m) ≡ suc n + m = omega arith in
      drop-drop m n xs ∙ ap (λ k. drop k (x ∷ xs)) shift

  without_tenth-empty : (n : ℕ) (xs : List A) → length xs ≤ 0 → [] ≡ without_tenth n xs
  unfolding without_tenth
  without_tenth-empty n [] h = refl
  without_tenth-empty n (x ∷ xs) h = absurd (omega (arith, h))

  concat-batches :
      (n k : ℕ) (xs : List A)
      → length (drop (k * 10) xs) ≤ n * 10
      → concat (batches n k xs) ≡ without_tenth 9 (drop (k * 10) xs)
  unfolding batches
  concat-batches zero k xs h = without_tenth-empty 9 (drop (k * 10) xs) (omega (arith, h))
  concat-batches (suc n) k xs h =
      let nine : k * 10 + 10 - 1 - k * 10 ≡ 9 = omega arith in
      let next : k * 10 + 10 ≡ (k + 1) * 10 = omega arith in
      let later : drop 10 (drop (k * 10) xs) ≡ drop ((k + 1) * 10) xs =
        drop-drop 10 (k * 10) xs ∙ ap (λ j. drop j xs) next in
      let fits : length (drop ((k + 1) * 10) xs) ≤ n * 10 =
        omega (arith, h, length-drop (k * 10) xs, length-drop ((k + 1) * 10) xs) in
      ap (λ j. take j (drop (k * 10) xs) ++ concat (batches n (k + 1) xs)) nine
      ∙ ap (λ ys. take 9 (drop (k * 10) xs) ++ ys)
          (concat-batches n (k + 1) xs fits ∙ ap (without_tenth 9) (sym later))
      ∙ sym (without_tenth-take 9 (drop (k * 10) xs))

length-map : {A B : Type 0} (f : A → B) (xs : List A) → length (map f xs) ≡ length xs
length-map f [] = refl
length-map f (x ∷ xs) = ground (arith, length-map f xs)

-- The batches hold the given messages in their order, but without each tenth one: of ten messages the
-- last one is never sent.
pub add_messages_to_queue-skips :
    {A B : Type 0} (wrap : A → B) (messages : List A)
    → concat (add_messages_to_queue wrap messages) ≡ without_tenth 9 (map wrap messages)
unfolding add_messages_to_queue
add_messages_to_queue-skips wrap messages =
    concat-batches (batch_count messages) 0 (map wrap messages)
      (omega (arith, length-map wrap messages))
