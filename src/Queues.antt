-- ===== src/Queues.antt =====
-- The sending of messages to a queue of AWS in batches: `add_messages_to_queue`
-- (cloudigrade/util/aws/sqs.py).
pub mod Skipped
mod Tests
use cloudigrade.Prelude.{ℕ, zero, suc, ◌+◌, ◌-◌, ◌*◌, ◌/◌, List, [], ◌∷◌, map, length, take}

abbrev pub sqs_send_batch_size : ℕ
sqs_send_batch_size = 10

abbrev pub drop {ℓ} : {A : Type ℓ} → ℕ → List A → List A
drop zero xs = xs
drop (suc n) [] = []
drop (suc n) (x ∷ xs) = drop n xs

-- `xs[start:end]`
abbrev pub slice {ℓ} : {A : Type ℓ} → ℕ → ℕ → List A → List A
slice start end xs = take (end - start) (drop start xs)

-- `math.ceil(len(messages) / SQS_SEND_BATCH_SIZE)`
abbrev pub batch_count {ℓ} : {A : Type ℓ} → List A → ℕ
batch_count messages = (length messages + (sqs_send_batch_size - 1)) / sqs_send_batch_size

-- The loop over `range(batch_count)` from `batch_num` on: the batches that are sent.
unfoldable pub batches {ℓ} : {A : Type ℓ} → ℕ → ℕ → List A → List (List A)
batches zero batch_num messages = []
batches (suc n) batch_num messages =
    let start_pos = batch_num * sqs_send_batch_size in
    let end_pos = start_pos + sqs_send_batch_size - 1 in
    slice start_pos end_pos messages ∷ batches n (batch_num + 1) messages

-- `wrap` puts a message into the entry that is sent.
unfoldable pub add_messages_to_queue {ℓ κ} :
    {A : Type ℓ} {B : Type κ} → (A → B) → List A → List (List B)
unfolding batches
add_messages_to_queue wrap messages = batches (batch_count messages) 0 (map wrap messages)
