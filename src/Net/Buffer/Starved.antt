-- ===== src/Net/Buffer/Starved.antt =====
-- The bytes that MemUse counts and no message has: a cut drops messages and leaves them counted.
use dumbo_ms.Prelude.{
  ℕ, ◌+◌, ◌-◌, ◌≤◌, ◌<◌, ◌≡◌, refl, ap, ap₂, ◌∙◌, arith, List, [], ◌∷◌, ◌++◌, Option, none, some,
  length, drop, length-append, length-drop,
}
use dumbo_ms.Net.Messages.{ConsMsg, size, total, Sort}
use dumbo_ms.Net.Buffer.{Buffer, evict, filled, put, put_all}
use dumbo_ms.Net.Buffer.Sums.{total-perm, total-append, length_perm, cut_fits, cut-drop}
use dumbo_ms.Net.Buffer.Bounds.{EvictEnds, evict-ends}
use dumbo_ms.Net.Buffer.Exact.{put_rest, evict_fits}

abbrev pub lost : Buffer → ℕ
lost s = s.mem_use - total s.buf

none_left : (b : List ConsMsg) → total b < 56 → b ≡ []
none_left [] h = refl
none_left (m ∷ b) h = absurd (omega arith)

first_dropped : (b : List ConsMsg) → 0 < length b → total (drop 1 b) + 56 ≤ total b
first_dropped [] h = absurd (omega arith)
first_dropped (m ∷ b) h = omega arith

all_evicted :
    (volume : ℕ) (b : List ConsMsg) (mem gone : ℕ) (o : Option (List ConsMsg × ℕ))
    → gone + total b ≡ mem
    → gone ≤ volume
    → volume < gone + 56
    → EvictEnds volume b mem o
    → o ≡ some ([], gone)
all_evicted volume b mem gone none split low high e = absurd (omega arith)
all_evicted volume b mem gone (some (c, u)) split low high e =
    let empty : c ≡ [] = none_left c (omega (arith, e.counted, e.within)) in
    let left : u ≡ gone = omega (arith, e.counted, ap total empty) in
    ap₂ (λ x y. some (x, y)) empty left

module _ (sort : Sort) where
  total-put :
      (m : ConsMsg) (s : Buffer) → total (sort.slice (s.buf ++ (m ∷ []))) ≡ total s.buf + size m
  total-put m s =
      omega (arith, total-perm (sort.slice-perm (s.buf ++ (m ∷ []))), total-append s.buf (m ∷ []))

  length-put :
      (m : ConsMsg) (s : Buffer) → length (sort.slice (s.buf ++ (m ∷ []))) ≡ length s.buf + 1
  length-put m s =
      omega (arith, length_perm (sort.slice-perm (s.buf ++ (m ∷ []))), length-append s.buf (m ∷ []))

  put-starved :
      (m : ConsMsg) (s : Buffer)
      → length s.buf < s.capacity
      → total s.buf ≤ s.mem_use
      → lost s ≤ s.volume
      → s.volume < lost s + 56
      → put sort m s ≡ some (record s { buf = []; mem_use = lost s })
  unfolding put
  put-starved m s room counted low high =
      let b = sort.slice (s.buf ++ (m ∷ [])) in
      let mem = s.mem_use + size m in
      ap (λ c. filled s (evict s.volume c mem))
        (cut_fits s.capacity b (omega (arith, length-put m s)))
      ∙ ap (filled s) (
          all_evicted s.volume b mem (lost s) (evict s.volume b mem) (omega (arith, total-put m s))
            low high (evict-ends s.volume b mem (omega (arith, total-put m s))))

  empty_starved :
      (ms : List ConsMsg) (s : Buffer)
      → s.buf ≡ []
      → 0 < s.capacity
      → s.mem_use ≤ s.volume
      → s.volume < s.mem_use + 56
      → put_all sort ms s ≡ some (record s { buf = [] })
  unfolding put_all
  empty_starved [] s none_yet room low high = ap (λ b. some (record s { buf = b })) none_yet
  empty_starved (m ∷ ms) s none_yet room low high =
      let none_there : total s.buf ≡ 0 = ap total none_yet in
      let kept : lost s ≡ s.mem_use = omega arith in
      ap (put_rest sort ms) (
        put-starved m s (omega (arith, ap length none_yet)) (omega arith) (omega arith)
          (omega arith))
      ∙ ap (λ n. put_all sort ms (record s { buf = []; mem_use = n })) kept
      ∙ empty_starved ms (record s { buf = [] }) refl room low high

  -- Where so many bytes are counted and not there that no message fits beside them, a buffer with
  -- room loses what it has and every message that is put in, whatever their priorities.
  pub put_all-starved :
      (m : ConsMsg) (ms : List ConsMsg) (s : Buffer)
      → length s.buf < s.capacity
      → total s.buf ≤ s.mem_use
      → lost s ≤ s.volume
      → s.volume < lost s + 56
      → put_all sort (m ∷ ms) s ≡ some (record s { buf = []; mem_use = lost s })
  unfolding put_all
  put_all-starved m ms s room counted low high =
      ap (put_rest sort ms) (put-starved m s room counted low high)
      ∙ empty_starved ms (record s { buf = []; mem_use = lost s }) refl (omega arith) low high

  -- A put on a full buffer within the volume drops a message that stays counted.
  pub put-lost :
      (m : ConsMsg) (s : Buffer)
      → length s.buf ≡ s.capacity
      → total s.buf ≤ s.mem_use
      → s.mem_use + size m ≤ s.volume
      → (t : Buffer) × (put sort m s ≡ some t)
        × (length t.buf ≡ s.capacity)
        × (lost s + 56 ≤ lost t)
  unfolding put
  put-lost m s full counted fits =
      let b = sort.slice (s.buf ++ (m ∷ [])) in
      let mem = s.mem_use + size m in
      let one_over : length b - s.capacity ≡ 1 = omega (arith, length-put m s) in
      (
        record s { buf = drop 1 b; mem_use = mem },
        ap (λ c. filled s (evict s.volume c mem))
              (cut-drop s.capacity b ∙ ap (λ n. drop n b) one_over)
            ∙ ap (filled s) (evict_fits s.volume (drop 1 b) mem fits),
        omega (arith, length-drop 1 b, length-put m s),
        omega (arith, first_dropped b (omega (arith, length-put m s)), total-put m s),
      )
