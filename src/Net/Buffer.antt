-- ===== src/Net/Buffer.antt =====
-- The buffer that Push of SendBuf and Push of RcvBuf fill in network/priority/priorityqueue.go, with
-- the count `MemUse` of its bytes. An index out of range ends the program, which is `none`.
pub mod Bounds
pub mod Sums
pub mod Exact
pub mod Starved
use dumbo_ms.Prelude.{
  ℕ, ◌+◌, ◌-◌, List, [], ◌∷◌, ◌++◌, Option, none, some, length, drop, ltb, if◌then◌else◌,
}
use dumbo_ms.Net.Messages.{ConsMsg, size, Sort}

-- `Capacity`, `Volume`, `MemUse` and `Buf`.
pub record Buffer : Type 0 where
  pub capacity : ℕ
  pub volume : ℕ
  pub mem_use : ℕ
  pub buf : List ConsMsg

abbrev pub new_buffer : ℕ → ℕ → Buffer
new_buffer capacity volume = record { capacity = capacity; volume = volume; mem_use = 0; buf = [] }

-- `if size := len(Buf); size > Capacity { Buf = Buf[size-Capacity:] }`
unfoldable pub cut : ℕ → List ConsMsg → List ConsMsg
cut capacity b = if ltb capacity (length b) then drop (length b - capacity) b else b

-- The loop `for MemUse > Volume`, which reads `Buf[0]`.
unfoldable pub evict : ℕ → List ConsMsg → ℕ → Option (List ConsMsg × ℕ)
evict volume [] mem = if ltb volume mem then none else some ([], mem)
evict volume (m ∷ b) mem =
    let rest = evict volume b (mem - size m) in if ltb volume mem then rest else some (m ∷ b, mem)

abbrev pub filled : Buffer → Option (List ConsMsg × ℕ) → Option Buffer
filled s none = none
filled s (some (b, mem)) = some (record s { buf = b; mem_use = mem })

unfoldable pub put : Sort → ConsMsg → Buffer → Option Buffer
unfolding cut evict
put sort msg s =
    filled s
      (evict s.volume (cut s.capacity (sort.slice (s.buf ++ (msg ∷ [])))) (s.mem_use + size msg))

unfoldable pub put_all : Sort → List ConsMsg → Buffer → Option Buffer
unfolding put
put_all sort [] s = some s
put_all sort (m ∷ ms) s = elim (put sort m s) [ none ↦ none | some t ↦ put_all sort ms t ]

-- `nil` is `none`.
unfoldable pub pop : Buffer → Option (ConsMsg × Buffer)
pop s = elim s.buf [
  | [] ↦ none
  | m ∷ b ↦ some (m, record s { buf = b; mem_use = s.mem_use - size m })
]
