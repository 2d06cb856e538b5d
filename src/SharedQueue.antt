-- ===== src/SharedQueue.antt =====
-- private/shared_queue.hpp: the queue of received messages. The mutex is held for each whole
-- method, so each is one step on the queue; `wait_for` ends with the queue not empty, or with the
-- queue as it is when the time is over.
use astarte_device_sdk_cpp.Base.{ℕ, Bool, Option, none, some, List, [], ◌∷◌, ◌++◌, is_empty, length}

-- The oldest item, if there is one when the wait ends.
unfoldable pub pop {ℓ} : {T : Type ℓ} → List T → List T × Option T
pop [] = ([], none)
pop (res ∷ queue) = (queue, some res)

unfoldable pub push {ℓ} : {T : Type ℓ} → T → List T → List T
push item queue = queue ++ item ∷ []

abbrev pub size {ℓ} : {T : Type ℓ} → List T → ℕ
size queue = length queue

abbrev pub empty {ℓ} : {T : Type ℓ} → List T → Bool
empty queue = is_empty queue
