-- ===== src/Pbc/Darray/Blocks.antt =====
-- What the loops and block moves of misc/darray.c do to a block that begins with given values.
use dumbo_ms.Prelude.{
  length-take, length-set, length-replicate, replicate, ◌-◌, ℕ, zero, suc, ◌+◌, ◌<◌, ◌≡◌, ◌⊎◌, inl,
  inr, refl, ap, ◌∙◌, Bool, true, false, none, some, List, [], ◌∷◌, ◌++◌, map, append_assoc, length,
  get_or, get_elem?, set, take, drop, arith, Bool-cases, if◌then◌else◌, length-append, length-map,
  length-drop, foldl,
}
use native.Mathlib.Numerals.{add-one}
use dumbo_ms.Pbc.Darray.{realloc, Cell, memmove_down, find_from, shift_from, forall_from, visit}

module _ {ℓ} {A : Type ℓ} where
  pub get_or-at_length :
      (pre : List A) (c : A) (r : List A) (d : A) → get_or (pre ++ (c ∷ r)) (length pre) d ≡ c
  get_or-at_length [] c r d = refl
  get_or-at_length (x ∷ pre) c r d = get_or-at_length pre c r d

  pub set-at_length :
      (pre : List A) (c : A) (r : List A) (v : A)
      → set (pre ++ (c ∷ r)) (length pre) v ≡ pre ++ (v ∷ r)
  set-at_length [] c r v = refl
  set-at_length (x ∷ pre) c r v = ap (λ l. x ∷ l) (set-at_length pre c r v)

  get_or-past_length :
      (pre : List A) (c : A) (r : List A) (d : A)
      → get_or (pre ++ (c ∷ r)) (suc (length pre)) d ≡ get_or r 0 d
  get_or-past_length [] c r d = refl
  get_or-past_length (x ∷ pre) c r d = get_or-past_length pre c r d

module _ {ℓ} {A : Type ℓ} where
  -- No value of the list passes the test.
  abbrev pub Misses : (A → Bool) → List A → Type 0
  Misses test [] = Unit {0}
  Misses test (x ∷ xs) = (test x ≡ false) × Misses test xs

  -- `x` is the first value of `xs` that passes the test; `ys` stand before it, `zs` behind.
  pub record First (test : A → Bool) (xs ys : List A) (x : A) (zs : List A) : Type ℓ where
    pub split : xs ≡ ys ++ (x ∷ zs)
    pub hit : test x ≡ true
    pub missed : Misses test ys

  abbrev pub erase_first : (A → Bool) → List A → List A
  erase_first test [] = []
  erase_first test (x ∷ xs) = if test x then xs else x ∷ erase_first test xs

  pub erase_first-split :
      (test : A → Bool) (ys : List A) (x : A) (zs : List A)
      → test x ≡ true
      → Misses test ys
      → erase_first test (ys ++ (x ∷ zs)) ≡ ys ++ zs
  erase_first-split test [] x zs h m = rw h
  erase_first-split test (y ∷ ys) x zs h m =
      rw m.0 (ap (λ l. y ∷ l) (erase_first-split test ys x zs h m.1))

  pub erase_first-Misses :
      (test : A → Bool) (xs : List A) → Misses test xs → erase_first test xs ≡ xs
  erase_first-Misses test [] m = refl
  erase_first-Misses test (x ∷ xs) m = rw m.0 (ap (λ l. x ∷ l) (erase_first-Misses test xs m.1))

  pub shift_from-split :
      (pre : List (Cell A)) (c : Cell A) (xs : List A) (rest : List (Cell A)) (i : ℕ)
      → i ≡ length pre
      → shift_from (pre ++ (c ∷ (map some xs ++ rest))) (suc (length xs)) i
        ≡ pre ++ (map some xs ++ (get_or rest 0 none ∷ rest))
  unfolding shift_from
  shift_from-split pre c [] rest i e = rw (e, next, set-at_length pre c rest (get_or rest 0 none))
    where
      next : get_or (pre ++ (c ∷ rest)) (length pre + 1) none ≡ get_or rest 0 none
      next = rw add-one (get_or-past_length pre c rest none)
  shift_from-split pre c (x ∷ xs) rest i e =
      ap (λ b. shift_from b (suc (length xs)) (i + 1)) moved
      ∙ shift_from-split (pre ++ (some x ∷ [])) (some x) xs rest (i + 1)
          (omega (arith, e, length-append pre (some x ∷ [])))
      ∙ append_assoc pre (some x ∷ []) (map some xs ++ (get_or rest 0 none ∷ rest))
    where
      moved :
          set
            (pre ++ (c ∷ (some x ∷ (map some xs ++ rest))))
            i
            (get_or (pre ++ (c ∷ (some x ∷ (map some xs ++ rest)))) (i + 1) none)
          ≡ (pre ++ (some x ∷ [])) ++ (some x ∷ (map some xs ++ rest))
      moved = rw (
        e,
        add-one,
        get_or-past_length pre c (some x ∷ (map some xs ++ rest)) none,
        set-at_length pre c (some x ∷ (map some xs ++ rest)) (some x),
        append_assoc,
      )

  pub find_from-split :
      (test : A → Bool) (pre : List (Cell A)) (xs : List A) (rest : List (Cell A)) (i : ℕ)
      → i ≡ length pre
      → ((find_from test (pre ++ (map some xs ++ rest)) (length xs) i ≡ none) × Misses test xs)
        ⊎ ((ys : List A) × (x : A) × (zs : List A) × First test xs ys x zs
            × (find_from test (pre ++ (map some xs ++ rest)) (length xs) i ≡ some (i + length ys)))
  unfolding find_from
  find_from-split test pre [] rest i e = inl (refl, tt)
  find_from-split test pre (x ∷ xs) rest i e = elim (Bool-cases (test x)) [
    | inl h ↦ inr (
      [],
      x,
      xs,
      record { split = refl; hit = h; missed = tt },
      rw (cell, h) (ap some (omega arith)),
    )
    | inr h ↦
        elim (rw append_assoc at (
          find_from-split test (pre ++ (some x ∷ [])) xs rest (i + 1)
            (omega (arith, e, length-append pre (some x ∷ []))))) [
              | inl (f, m) ↦ inl (rw (cell, h) f, (h, m))
              | inr (ys, y, zs, first, f) ↦ inr (
                x ∷ ys,
                y,
                zs,
                record {
                  split = ap (λ l. x ∷ l) first.split;
                  hit = first.hit;
                  missed = (h, first.missed);
                },
                rw (cell, h, f) (ap some (omega arith)),
              )
            ]
  ]
    where
      cell : get_or (pre ++ (some x ∷ (map some xs ++ rest))) i none ≡ some x
      cell = rw e (get_or-at_length pre (some x) (map some xs ++ rest) none)

module _ {ℓ} {A : Type ℓ} where
  pub take-map-append :
      (xs : List A) (rest : List (Cell A)) (k : ℕ)
      → k ≡ length xs
      → take k (map some xs ++ rest) ≡ map some xs
  take-map-append [] rest zero e = refl
  take-map-append [] rest (suc k) e = absurd (omega arith)
  take-map-append (x ∷ xs) rest zero e = absurd (omega arith)
  take-map-append (x ∷ xs) rest (suc k) e =
      ap (λ l. some x ∷ l) (take-map-append xs rest k (omega arith))

  -- Removal of the value at index `length ys`.
  pub memmove_down-split :
      (ys : List A) (x : A) (zs : List A) (rest : List (Cell A)) (n k : ℕ)
      → n ≡ length ys
      → k ≡ length zs
      → (tail : List (Cell A)) × (memmove_down (map some (ys ++ (x ∷ zs)) ++ rest) n k
          ≡ map some (ys ++ zs) ++ tail)
        × (length tail ≡ suc (length rest))
  memmove_down-split [] x zs rest zero k e f = (
    drop (0 + k) (some x ∷ (map some zs ++ rest)),
    ap (λ t. t ++ drop (0 + k) (some x ∷ (map some zs ++ rest))) (take-map-append zs rest k f),
    omega (
      arith,
      length-drop (0 + k) (some x ∷ (map some zs ++ rest)),
      length-append (map some zs) rest,
      length-map zs (λ (a : A). some a),
    ),
  )
  memmove_down-split [] x zs rest (suc n) k e f = absurd (omega arith)
  memmove_down-split (y ∷ ys) x zs rest zero k e f = absurd (omega arith)
  memmove_down-split (y ∷ ys) x zs rest (suc n) k e f =
      let (tail, p, l) = memmove_down-split ys x zs rest n k (omega arith) f in
      (tail, rw towards (ap (λ t. some y ∷ t) p), l)
    where
      towards : suc n + k ≡ suc (n + k)
      towards = omega arith

  pub forall_from-split {κ} :
      {S : Type κ} (func : S → A → S) (pre : List (Cell A)) (xs : List A) (rest : List (Cell A))
      (i : ℕ) (s : S)
      → i ≡ length pre
      → forall_from func (pre ++ (map some xs ++ rest)) (length xs) i s ≡ foldl func s xs
  unfolding forall_from
  forall_from-split func pre [] rest i s e = refl
  forall_from-split func pre (x ∷ xs) rest i s e =
      ap
        (λ c.
          forall_from func (pre ++ (some x ∷ (map some xs ++ rest))) (length xs) (i + 1)
            (visit func s c))
        cell
      ∙ (rw append_assoc at (
          forall_from-split func (pre ++ (some x ∷ [])) xs rest (i + 1) (func s x)
            (omega (arith, e, length-append pre (some x ∷ [])))))
    where
      cell : get_or (pre ++ (some x ∷ (map some xs ++ rest))) i none ≡ some x
      cell = rw e (get_or-at_length pre (some x) (map some xs ++ rest) none)

  -- A write into the first unused cell.
  pub set-map-append :
      (xs : List A) (c : Cell A) (rest : List (Cell A)) (p : A) (n : ℕ)
      → n ≡ length xs
      → set (map some xs ++ (c ∷ rest)) n (some p) ≡ map some (xs ++ (p ∷ [])) ++ rest
  set-map-append [] c rest p zero e = refl
  set-map-append [] c rest p (suc n) e = absurd (omega arith)
  set-map-append (x ∷ xs) c rest p zero e = absurd (omega arith)
  set-map-append (x ∷ xs) c rest p (suc n) e =
      ap (λ l. some x ∷ l) (set-map-append xs c rest p n (omega arith))

  pub get_or-map-append :
      (xs : List A) (rest : List (Cell A)) (i : ℕ)
      → i < length xs
      → get_or (map some xs ++ rest) i none ≡ get_elem? xs i
  get_or-map-append [] rest i h = absurd (omega arith)
  get_or-map-append (x ∷ xs) rest zero h = refl
  get_or-map-append (x ∷ xs) rest (suc i) h = get_or-map-append xs rest i (omega arith)

  pub length-memmove_down :
      (block : List (Cell A)) (n k : ℕ)
      → n + k < length block
      → length (memmove_down block n k) ≡ length block
  length-memmove_down block n k h = omega (
    arith,
    length-append (take n block) (take k (drop (suc n) block) ++ drop (n + k) block),
    length-append (take k (drop (suc n) block)) (drop (n + k) block),
    length-take n block,
    length-take k (drop (suc n) block),
    length-drop (suc n) block,
    length-drop (n + k) block,
  )

  pub length-shift_from :
      (block : List (Cell A)) (rounds i : ℕ) → length (shift_from block rounds i) ≡ length block
  unfolding shift_from
  length-shift_from block zero i = refl
  length-shift_from block (suc rounds) i =
      length-shift_from (set block i (get_or block (i + 1) none)) rounds (i + 1)
      ∙ length-set block i (get_or block (i + 1) none)

  pub map-split :
      (ys us : List A) (rest : List (Cell A))
      → map some (ys ++ us) ++ rest ≡ map some ys ++ (map some us ++ rest)
  map-split [] us rest = refl
  map-split (y ∷ ys) us rest = ap (λ l. some y ∷ l) (map-split ys us rest)

  pub length-realloc : (block : List (Cell A)) (n : ℕ) → length (realloc block n) ≡ n
  length-realloc block n = omega (
    arith,
    length-append (take n block) (replicate (n - length block) none),
    length-take n block,
    length-replicate {A = Cell A} (n - length block) none,
  )
