-- ===== src/Pbc/Symtab/Laws.antt =====
-- The symbol table of misc/symtab.c against an association list.
use dumbo_ms.Prelude.{
  ◌≡◌, refl, sym, ap, subst, ◌∙◌, inl, inr, Bool, true, false, Option, none, some, List, [], ◌∷◌,
  ◌++◌, map, length, set, get_or, Eq, if◌then◌else◌, arith, Bool-cases, length-map, length-append,
  length-set,
}
use dumbo_ms.Pbc.Darray.Blocks.{Misses, get_or-at_length, set-at_length, map-split}
use dumbo_ms.Pbc.Darray.Refine.{Holds, init-Holds, append-Holds}
use dumbo_ms.Pbc.Darray.Search.{found, read-First}
use dumbo_ms.Pbc.Symtab.{
  Entry, Symtab, init, has_key, position, put_at, put, write_value, is_found, has, value_at,
  cell_value, at,
}

abbrev pub is_some {ℓ} : {A : Type ℓ} → Option A → Bool
is_some none = false
is_some (some a) = true

module _ {ℓ κ} {K : Type ℓ} {D : Type κ} ⦃e : Eq K⦄ where
  abbrev pub lookup : K → List (Entry K D) → Option D
  lookup k [] = none
  lookup k (x ∷ xs) = if e.beq x.key k then some x.value else lookup k xs

  abbrev pub insert : D → K → List (Entry K D) → List (Entry K D)
  insert d k [] = record { key = k; value = d } ∷ []
  insert d k (x ∷ xs) = if e.beq x.key k then record x { value = d } ∷ xs else x ∷ insert d k xs

  -- No key stands twice.
  abbrev pub Distinct : List (Entry K D) → Type κ
  Distinct [] = Unit
  Distinct (x ∷ xs) = (lookup x.key xs ≡ none) × Distinct xs

  lookup-First :
      (k : K) (ys : List (Entry K D)) (x : Entry K D) (zs : List (Entry K D))
      → has_key k x ≡ true
      → Misses (has_key k) ys
      → lookup k (ys ++ (x ∷ zs)) ≡ some x.value
  lookup-First k [] x zs h m = rw h
  lookup-First k (y ∷ ys) x zs h m = rw m.0 (lookup-First k ys x zs h m.1)

  lookup-Misses : (k : K) (xs : List (Entry K D)) → Misses (has_key k) xs → lookup k xs ≡ none
  lookup-Misses k [] m = refl
  lookup-Misses k (x ∷ xs) m = rw m.0 (lookup-Misses k xs m.1)

  insert-First :
      (d : D) (k : K) (ys : List (Entry K D)) (x : Entry K D) (zs : List (Entry K D))
      → has_key k x ≡ true
      → Misses (has_key k) ys
      → insert d k (ys ++ (x ∷ zs)) ≡ ys ++ (record x { value = d } ∷ zs)
  insert-First d k [] x zs h m = rw h
  insert-First d k (y ∷ ys) x zs h m = rw m.0 (ap (λ l. y ∷ l) (insert-First d k ys x zs h m.1))

  insert-Misses :
      (d : D) (k : K) (xs : List (Entry K D))
      → Misses (has_key k) xs
      → insert d k xs ≡ xs ++ (record { key = k; value = d } ∷ [])
  insert-Misses d k [] m = refl
  insert-Misses d k (x ∷ xs) m = rw m.0 (ap (λ l. x ∷ l) (insert-Misses d k xs m.1))

  pub lookup-insert :
      (d : D) (k j : K) (xs : List (Entry K D))
      → lookup j (insert d k xs) ≡ (if e.beq k j then some d else lookup j xs)
  lookup-insert d k j [] = refl
  lookup-insert d k j (x ∷ xs) =
      ground (arith, e.beq_iff x.key k, e.beq_iff x.key j, e.beq_iff k j, lookup-insert d k j xs)

  pub insert-Distinct :
      (d : D) (k : K) (xs : List (Entry K D)) → Distinct xs → Distinct (insert d k xs)
  insert-Distinct d k [] h = (refl, tt)
  insert-Distinct d k (x ∷ xs) h = elim (Bool-cases (e.beq x.key k)) [
    | inl p ↦ rw p h
    | inr p ↦ rw p (
      lookup-insert d k x.key xs ∙ ground (arith, e.beq_iff x.key k, e.beq_iff k x.key, h.0),
      insert-Distinct d k xs h.1,
    )
  ]

  -- The cell of the first entry with the key is overwritten in place.
  written-Holds :
      (t : Symtab K D) (d : D) (k : K) (ys : List (Entry K D)) (x : Entry K D)
      (zs : List (Entry K D))
      → Holds t.list (ys ++ (x ∷ zs))
      → Holds (put_at t d k (some (length ys))).list (ys ++ (record x { value = d } ∷ zs))
  unfolding put_at
  written-Holds t d k ys x zs h = record {
    rest = h.rest;
    block =
        ap (λ b. set b (length ys) (write_value d (get_or b (length ys) none)))
          (h.block ∙ map-split ys (x ∷ zs) h.rest)
        ∙ overwritten
        ∙ sym (map-split ys (x' ∷ zs) h.rest);
    counted = omega (arith, h.counted, length-append ys (x ∷ zs), length-append ys (x' ∷ zs));
    sized =
        h.sized
        ∙ sym (
            length-set t.list.item (length ys)
              (write_value d (get_or t.list.item (length ys) none)));
  }
    where
      x' : Entry K D
      x' = record x { value = d }

      overwritten :
          set (map some ys ++ (some x ∷ (map some zs ++ h.rest))) (length ys) (
            write_value d
              (get_or (map some ys ++ (some x ∷ (map some zs ++ h.rest))) (length ys) none))
          ≡ map some ys ++ (some x' ∷ (map some zs ++ h.rest))
      overwritten = rw (
        ← length-map ys (λ (y : Entry K D). some y),
        get_or-at_length (map some ys) (some x) (map some zs ++ h.rest) none,
        set-at_length (map some ys) (some x) (map some zs ++ h.rest) (some x'),
      )

  -- `symtab_put` makes the table hold the association list with the pair inserted.
  pub put-Holds :
      {t : Symtab K D} {xs : List (Entry K D)} (d : D) (k : K)
      → Holds t.list xs
      → Holds (put t d k).list (insert d k xs)
  unfolding put position
  put-Holds {t} {xs} d k h = elim (found (has_key k) h) [
    | inl (f, m) ↦
        subst (λ o. Holds (put_at t d k o).list (insert d k xs)) (sym f)
          (rw (insert-Misses d k xs m) (appended h))
    | inr (ys, x, zs, f, q) ↦
        subst (λ o. Holds (put_at t d k o).list (insert d k xs)) (sym q)
          (rw (f.split, insert-First d k ys x zs f.hit f.missed)
            (written-Holds t d k ys x zs (subst (Holds t.list) f.split h)))
  ]
    where
      appended :
          Holds t.list xs
          → Holds (put_at t d k none).list (xs ++ (record { key = k; value = d } ∷ []))
      appended h' = append-Holds (record { key = k; value = d }) h'

  -- `symtab_at` is the lookup in the association list, and `symtab_has` says whether it succeeds.
  pub at-lookup :
      {t : Symtab K D} {xs : List (Entry K D)} (k : K)
      → Holds t.list xs
      → (at t k ≡ lookup k xs) × (has t k ≡ is_some (lookup k xs))
  unfolding at has position value_at is_found
  at-lookup {t} {xs} k h = elim (found (has_key k) h) [
    | inl (f, m) ↦
        (ap (value_at t) f ∙ sym (lookup-Misses k xs m), ap is_found f ∙ rw (lookup-Misses k xs m))
    | inr (ys, x, zs, f, q) ↦ (
      ap (value_at t) q
          ∙ ap cell_value (read-First (has_key k) h f)
          ∙ sym (ap (lookup k) f.split ∙ lookup-First k ys x zs f.hit f.missed),
      ap is_found q ∙ rw (f.split, lookup-First k ys x zs f.hit f.missed),
    )
  ]

  -- After `symtab_put` of a datum under a key, `symtab_at` returns it for that key, and for every
  -- other key what it returned before; `symtab_has` is true of that key and unchanged for others.
  pub at-put :
      {t : Symtab K D} {xs : List (Entry K D)} (d : D) (k j : K)
      → Holds t.list xs
      → (at (put t d k) j ≡ (if e.beq k j then some d else at t j))
        × (has (put t d k) j ≡ (if e.beq k j then true else has t j))
  at-put {t} {xs} d k j h =
      ground (arith, at-lookup j h, at-lookup j (put-Holds d k h), lookup-insert d k j xs)

  -- `symtab_put` keeps the keys of a table distinct.
  pub put-Distinct :
      {t : Symtab K D} {xs : List (Entry K D)} (d : D) (k : K)
      → Holds t.list xs
      → Distinct xs
      → (ys : List (Entry K D)) × Holds (put t d k).list ys × Distinct ys
  put-Distinct {xs = xs} d k h distinct =
      (insert d k xs, put-Holds d k h, insert-Distinct d k xs distinct)

  -- A fresh table has no key.
  pub at-init :
      (k : K) → (at (init {K = K} {D = D}) k ≡ none) × (has (init {K = K} {D = D}) k ≡ false)
  unfolding init
  at-init k = at-lookup k init-Holds
