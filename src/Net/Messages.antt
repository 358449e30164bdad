-- ===== src/Net/Messages.antt =====
-- Messages between nodes, structure/normalstruct.go, and sort.Slice on them as the interface that
-- the Go manual documents: the result is sorted and has the same items, in no certain order where
-- priorities are equal.
pub mod Model
use mathlib.Core.List.{Permᴰ}
use dumbo_ms.Prelude.{ℕ, ◌+◌, List, [], ◌∷◌, length}
use dumbo_ms.Prelude.Int.{ℤ, ◌≤ℤ◌}

-- `type ConsInMsg` and `type ConsOutMsg`, which have the same fields.
pub record ConsMsg : Type 0 where
  pub send_id : ℤ
  pub rev_id : ℤ
  pub priority : ℤ
  pub content : List ℕ
  pub msg_type : ℤ

-- `len(msg.Content) + 56`
abbrev pub size : ConsMsg → ℕ
size msg = length msg.content + 56

abbrev pub total : List ConsMsg → ℕ
total [] = 0
total (m ∷ ms) = size m + total ms

-- No message of the list has a lower priority.
abbrev pub Least : ConsMsg → List ConsMsg → Type 0
Least m [] = Unit
Least m (x ∷ xs) = (m.priority ≤ℤ x.priority) × Least m xs

abbrev pub IsSorted : List ConsMsg → Type 0
IsSorted [] = Unit
IsSorted (m ∷ ms) = Least m ms × IsSorted ms

pub record Sort : Type 0 where
  pub slice : List ConsMsg → List ConsMsg
  pub slice-IsSorted : (ms : List ConsMsg) → IsSorted (slice ms)
  pub slice-perm : (ms : List ConsMsg) → Permᴰ (slice ms) ms
