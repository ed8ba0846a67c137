-- ===== src/Queues/Tests.antt =====
-- The theorem about batches at a concrete input.
use cloudigrade.Prelude.{ℕ, ◌≡◌, List, [], ◌∷◌}
use cloudigrade.Queues.{add_messages_to_queue}
use cloudigrade.Queues.Skipped.{concat, without_tenth, add_messages_to_queue-skips}

abbrev eleven : List ℕ
eleven = 1 ∷ 2 ∷ 3 ∷ 4 ∷ 5 ∷ 6 ∷ 7 ∷ 8 ∷ 9 ∷ 10 ∷ 11 ∷ []

add_messages_to_queue-skips_example :
    concat (add_messages_to_queue (λ (n : ℕ). n) eleven)
    ≡ 1 ∷ 2 ∷ 3 ∷ 4 ∷ 5 ∷ 6 ∷ 7 ∷ 8 ∷ 9 ∷ 11 ∷ []
unfolding without_tenth
add_messages_to_queue-skips_example = add_messages_to_queue-skips (λ (n : ℕ). n) eleven
