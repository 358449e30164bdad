-- ===== src/Net/Buffer/Exact.antt =====
-- Within the two limits nothing is lost, and pops give the lowest priorities first.
use mathlib.Core.List.{Permᴰ}
use mathlib.Core.List.Permᴰ
use dumbo_ms.Prelude.{
  ℕ, ◌+◌, ◌≤◌, ◌<◌, ◌≡◌, refl, ap, ◌∙◌, subst, arith, List, [], ◌∷◌, ◌++◌, Option, none, some,
  length, append_assoc, length-append,
}
use dumbo_ms.Net.Messages.{ConsMsg, size, total, IsSorted, Sort}
use dumbo_ms.Net.Buffer.{Buffer, new_buffer, evict, filled, put, put_all}
use dumbo_ms.Net.Buffer.Sums.{length_perm, cut_fits}

pub evict_fits :
    (volume : ℕ) (b : List ConsMsg) (mem : ℕ) → mem ≤ volume → evict volume b mem ≡ some (b, mem)
unfolding evict
evict_fits volume [] mem h = ground arith
evict_fits volume (m ∷ b) mem h = ground arith

module _ (sort : Sort) where
  pub put_fits :
      (m : ConsMsg) (s : Buffer)
      → length s.buf < s.capacity
      → s.mem_use + size m ≤ s.volume
      → put sort m s
        ≡ some (record s { buf = sort.slice (s.buf ++ (m ∷ [])); mem_use = s.mem_use + size m })
  unfolding put
  put_fits m s room fits =
      let b = sort.slice (s.buf ++ (m ∷ [])) in
      let few : length b ≤ s.capacity =
        omega (
          arith,
          length_perm (sort.slice-perm (s.buf ++ (m ∷ []))),
          length-append s.buf (m ∷ []),
        ) in
      ap (λ c. filled s (evict s.volume c (s.mem_use + size m))) (cut_fits s.capacity b few)
      ∙ ap (filled s) (evict_fits s.volume b (s.mem_use + size m) fits)

  abbrev pub put_rest : List ConsMsg → Option Buffer → Option Buffer
  put_rest ms o = elim o [ none ↦ none | some t ↦ put_all sort ms t ]

  all_from :
      (ms : List ConsMsg) (s : Buffer)
      → IsSorted s.buf
      → length s.buf + length ms ≤ s.capacity
      → s.mem_use + total ms ≤ s.volume
      → (t : Buffer) × (put_all sort ms s ≡ some t)
        × Permᴰ t.buf (s.buf ++ ms)
        × IsSorted t.buf
        × (t.mem_use ≡ s.mem_use + total ms)
  unfolding put_all
  all_from [] s sorted few fits =
      (s, refl, Permᴰ.symm (Permᴰ.append-nil s.buf), sorted, omega arith)
  all_from (m ∷ ms) s sorted few fits =
      let b = sort.slice (s.buf ++ (m ∷ [])) in
      let u : Buffer = record s { buf = b; mem_use = s.mem_use + size m } in
      let p = sort.slice-perm (s.buf ++ (m ∷ [])) in
      let rest =
        all_from ms u (sort.slice-IsSorted (s.buf ++ (m ∷ [])))
          (omega (arith, length_perm p, length-append s.buf (m ∷ []))) (omega arith) in
      (
        rest.0,
        ap (put_rest ms) (put_fits m s (omega arith) (omega arith)) ∙ rest.1,
        subst (Permᴰ rest.0.buf) (append_assoc s.buf (m ∷ []) ms)
            (Permᴰ.trans rest.2 (Permᴰ.append_right ms p)),
        rest.3,
        omega (arith, rest.4),
      )

  -- As long as neither limit is met, the buffer holds just the messages that were put in, sorted,
  -- and counts just their bytes.
  pub put_all-all :
      (capacity volume : ℕ) (ms : List ConsMsg)
      → length ms ≤ capacity
      → total ms ≤ volume
      → (t : Buffer) × (put_all sort ms (new_buffer capacity volume) ≡ some t)
        × Permᴰ t.buf ms
        × IsSorted t.buf
        × (t.mem_use ≡ total ms)
  put_all-all capacity volume ms few fits =
      let r = all_from ms (new_buffer capacity volume) tt (omega arith) (omega arith) in
      (r.0, r.1, r.2, r.3, omega (arith, r.4))
