-- ===== src/Net/Buffer/Bounds.antt =====
-- What a put keeps: the order, the two limits, and a count of at least the bytes that are there.
use mathlib.Core.Option.{some-injective, none-ne-some}
use dumbo_ms.Prelude.{
  subst, ap, ℕ, suc, ◌+◌, ◌-◌, ◌≤◌, ◌<◌, ◌≡◌, refl, arith, tests, inl, inr, Bool-cases, List, [],
  ◌∷◌, ◌++◌, Option, none, some, length, drop, ltb, length-drop,
}
use dumbo_ms.Net.Messages.{ConsMsg, size, total, IsSorted, Least, Sort}
use dumbo_ms.Net.Buffer.{Buffer, cut, evict, filled, put, pop}
use dumbo_ms.Net.Buffer.Sums.{total-perm, total-append, drop-IsSorted, cut-bounds, cut-IsSorted}

-- Eviction drops messages from the front, with their bytes, until the count is within the volume.
pub record Evicted (volume : ℕ) (b : List ConsMsg) (mem : ℕ) (c : List ConsMsg) (u : ℕ)
    : Type 0 where
  pub dropped : ℕ
  pub rest : c ≡ drop dropped b
  pub counted : u + total b ≡ mem + total c
  pub within : u ≤ volume

-- What an eviction comes to: it ends the program where the count exceeds the bytes that are there
-- by more than the volume.
abbrev pub EvictEnds : ℕ → List ConsMsg → ℕ → Option (List ConsMsg × ℕ) → Type 0
EvictEnds volume b mem none = volume < mem - total b
EvictEnds volume b mem (some (c, u)) = Evicted volume b mem c u

evict_more :
    (volume : ℕ) (m : ConsMsg) (b : List ConsMsg) (mem : ℕ) (o : Option (List ConsMsg × ℕ))
    → total (m ∷ b) ≤ mem
    → EvictEnds volume b (mem - size m) o
    → EvictEnds volume (m ∷ b) mem o
evict_more volume m b mem none h e = omega arith
evict_more volume m b mem (some (c, u)) h e = record {
  dropped = suc e.dropped;
  rest = e.rest;
  counted = omega (arith, e.counted);
  within = e.within;
}

pub evict-ends :
    (volume : ℕ) (b : List ConsMsg) (mem : ℕ)
    → total b ≤ mem
    → EvictEnds volume b mem (evict volume b mem)
unfolding evict
evict-ends volume [] mem h = elim (Bool-cases (ltb volume mem)) [
  | inl over ↦ rw over (omega tests)
  | inr fits ↦
      rw fits (record { dropped = 0; rest = refl; counted = omega arith; within = ground arith })
]
evict-ends volume (m ∷ b) mem h = elim (Bool-cases (ltb volume mem)) [
  | inl over ↦ rw over (
      evict_more volume m b mem (evict volume b (mem - size m)) h
        (evict-ends volume b (mem - size m) (omega arith)))
  | inr fits ↦
      rw fits (record { dropped = 0; rest = refl; counted = omega arith; within = ground arith })
]

-- A state that the program keeps.
pub record Holds (s : Buffer) : Type 0 where
  pub ordered : IsSorted s.buf
  pub few : length s.buf ≤ s.capacity
  pub counted : total s.buf ≤ s.mem_use
  pub within : s.mem_use ≤ s.volume

module _ (sort : Sort) where
  abbrev pub sorted_in : ConsMsg → Buffer → List ConsMsg
  sorted_in m s = cut s.capacity (sort.slice (s.buf ++ (m ∷ [])))

  total-sorted_in : (m : ConsMsg) (s : Buffer) → total (sorted_in m s) ≤ total s.buf + size m
  total-sorted_in m s =
      let b = sort.slice (s.buf ++ (m ∷ [])) in
      omega (
        arith,
        cut-bounds s.capacity b,
        total-perm (sort.slice-perm (s.buf ++ (m ∷ []))),
        total-append s.buf (m ∷ []),
      )

  abbrev pub PutEnds : ConsMsg → Buffer → Option Buffer → Type 0
  PutEnds m s none = s.volume < s.mem_use + size m - total (sorted_in m s)
  PutEnds m s (some t) =
      Holds t
      × (t.capacity ≡ s.capacity)
      × (t.volume ≡ s.volume)
      × (t.mem_use + total (sorted_in m s) ≡ s.mem_use + size m + total t.buf)

  fill_ends :
      (m : ConsMsg) (s : Buffer) (o : Option (List ConsMsg × ℕ))
      → total s.buf ≤ s.mem_use
      → EvictEnds s.volume (sorted_in m s) (s.mem_use + size m) o
      → PutEnds m s (filled s o)
  fill_ends m s none h e = e
  fill_ends m s (some (c, u)) h e = (
    record {
      ordered = rw e.rest (
          drop-IsSorted e.dropped (sorted_in m s) (
            cut-IsSorted s.capacity (sort.slice (s.buf ++ (m ∷ [])))
              (sort.slice-IsSorted (s.buf ++ (m ∷ [])))));
      few = rw e.rest (
          omega (
            arith,
            length-drop e.dropped (sorted_in m s),
            cut-bounds s.capacity (sort.slice (s.buf ++ (m ∷ []))),
          ));
      counted = omega (arith, e.counted, total-sorted_in m s);
      within = e.within;
    },
    refl,
    refl,
    e.counted,
  )

  pub put-ends : (m : ConsMsg) (s : Buffer) → total s.buf ≤ s.mem_use → PutEnds m s (put sort m s)
  unfolding put
  put-ends m s h = fill_ends m s (evict s.volume (sorted_in m s) (s.mem_use + size m)) h (
      evict-ends s.volume (sorted_in m s) (s.mem_use + size m) (omega (arith, total-sorted_in m s)))

first_popped :
    (s : Buffer) (x : ConsMsg) (b : List ConsMsg)
    → s.buf ≡ x ∷ b
    → Holds s
    → Holds (record s { buf = b; mem_use = s.mem_use - size x })
      × Least x b
      × (s.mem_use - size x + size x ≡ s.mem_use)
      × (s.buf ≡ x ∷ b)
first_popped s x b same h =
    let sorted = subst IsSorted same h.ordered in
    let bytes : total (x ∷ b) ≤ s.mem_use = omega (arith, ap total same, h.counted) in
    (
      record {
        ordered = sorted.1;
        few = omega (arith, ap length same, h.few);
        counted = omega arith;
        within = omega (arith, h.within);
      },
      sorted.0,
      omega arith,
      same,
    )

abbrev pop_of : Buffer → List ConsMsg → Option (ConsMsg × Buffer)
pop_of s b = elim b [
  | [] ↦ none
  | m ∷ b ↦ some (m, record s { buf = b; mem_use = s.mem_use - size m })
]

popped :
    (s : Buffer) (b : List ConsMsg) (t : Buffer) (m : ConsMsg)
    → s.buf ≡ b
    → Holds s
    → pop_of s b ≡ some (m, t)
    → Holds t × Least m t.buf × (t.mem_use + size m ≡ s.mem_use) × (s.buf ≡ m ∷ t.buf)
popped s [] t m same h e = absurd (none-ne-some (m, t) e)
popped s (x ∷ b) t m same h e =
    let r = some-injective (x, record s { buf = b; mem_use = s.mem_use - size x }) (m, t) e in
    subst
      (λ (q : ConsMsg × Buffer).
        Holds q.1
        × Least q.0 q.1.buf
        × (q.1.mem_use + size q.0 ≡ s.mem_use)
        × (s.buf ≡ q.0 ∷ q.1.buf))
      r (first_popped s x b same h)

-- A pop takes a message of the lowest priority with its bytes and keeps the rest.
pub pop-Least :
    (s t : Buffer) (m : ConsMsg)
    → Holds s
    → pop s ≡ some (m, t)
    → Holds t × Least m t.buf × (t.mem_use + size m ≡ s.mem_use) × (s.buf ≡ m ∷ t.buf)
unfolding pop
pop-Least s t m h e = popped s s.buf t m refl h e
