-- ===== src/Pbc/Darray/Search.antt =====
-- The operations of misc/darray.c that search: what they find, and what they leave behind.
use dumbo_ms.Prelude.{
  ℕ, suc, ◌-◌, ◌≡◌, ◌⊎◌, inl, inr, refl, sym, ap, ap₂, subst, ◌∙◌, Bool, none, some, List, [], ◌∷◌,
  ◌++◌, map, length, get_or, arith, length-append, length-map, foldl, Eq,
}
use dumbo_ms.Pbc.Darray.{
  Darray, removed_at, shifted_at, shift_from, read_at, find_from, index_of, remove,
  remove_with_test, at_test, forall, forall_from,
}
use dumbo_ms.Pbc.Darray.Blocks.{
  First, Misses, erase_first, erase_first-split, erase_first-Misses, shift_from-split,
  find_from-split, forall_from-split, length-shift_from, map-split, get_or-at_length,
}
use dumbo_ms.Pbc.Darray.Refine.{Holds, moved-Holds}

module _ {ℓ} {A : Type ℓ} where
  -- What the search loop of the module finds.
  pub found :
      {a : Darray A} {xs : List A} (test : A → Bool)
      → Holds a xs
      → ((find_from test a.item a.count 0 ≡ none) × Misses test xs)
        ⊎ ((ys : List A) × (x : A) × (zs : List A) × First test xs ys x zs
            × (find_from test a.item a.count 0 ≡ some (length ys)))
  found {a} {xs} test h = elim (find_from-split test [] xs h.rest 0 refl) [
    | inl (e, m) ↦ inl (here ∙ e, m)
    | inr (ys, x, zs, f, e) ↦ inr (ys, x, zs, f, here ∙ e ∙ ap some (omega arith))
  ]
    where
      here : find_from test a.item a.count 0 ≡ find_from test (map some xs ++ h.rest) (length xs) 0
      here = ap₂ (λ b n. find_from test b n 0) h.block h.counted

  shifted-Holds :
      {a : Darray A} (ys : List A) (x : A) (zs : List A) (n : ℕ)
      → Holds a (ys ++ (x ∷ zs))
      → n ≡ length ys
      → Holds
          (record a { item = shift_from a.item (a.count - n) n; count = a.count - 1 })
          (ys ++ zs)
  shifted-Holds {a} ys x zs n h e = record {
    rest = get_or h.rest 0 none ∷ h.rest;
    block =
        ap₂ (λ b k. shift_from b k n) (h.block ∙ map-split ys (x ∷ zs) h.rest)
          (let k : a.count - n ≡ suc (length zs) =
              omega (arith, h.counted, length-append ys (x ∷ zs)) in
            k)
        ∙ shift_from-split (map some ys) (some x) zs h.rest n
            (e ∙ sym (length-map ys (λ (y : A). some y)))
        ∙ sym (map-split ys zs (get_or h.rest 0 none ∷ h.rest));
    counted = omega (arith, h.counted, length-append ys (x ∷ zs), length-append ys zs);
    sized = h.sized ∙ sym (length-shift_from a.item (a.count - n) n);
  }

  -- `darray_remove` takes out the first occurrence of a value, and nothing if there is none.
  pub remove-Holds :
      ⦃e : Eq A⦄
      → {a : Darray A} {xs : List A} (p : A) → Holds a xs
      → Holds (remove a p) (erase_first (λ x. e.beq x p) xs)
  unfolding remove
  remove-Holds ⦃e⦄ {a} {xs} p h = elim (found (λ x. e.beq x p) h) [
    | inl (f, m) ↦
        subst (λ o. Holds (removed_at a o) (erase_first (λ x. e.beq x p) xs)) (sym f)
          (rw (erase_first-Misses (λ x. e.beq x p) xs m) h)
    | inr (ys, x, zs, f, q) ↦
        subst (λ o. Holds (removed_at a o) (erase_first (λ x. e.beq x p) xs)) (sym q)
          (rw (f.split, erase_first-split (λ x. e.beq x p) ys x zs f.hit f.missed)
            (moved-Holds ys x zs (length ys) (subst (Holds a) f.split h) refl))
  ]

  -- `darray_remove_with_test` takes out the first value that passes the test, and nothing if none
  -- does; the array stays well formed and keeps the order of the rest.
  pub remove_with_test-Holds :
      {a : Darray A} {xs : List A} (test : A → Bool)
      → Holds a xs
      → Holds (remove_with_test a test) (erase_first test xs)
  unfolding remove_with_test
  remove_with_test-Holds {a} {xs} test h = elim (found test h) [
    | inl (f, m) ↦
        subst (λ o. Holds (shifted_at a o) (erase_first test xs)) (sym f)
          (rw (erase_first-Misses test xs m) h)
    | inr (ys, x, zs, f, q) ↦
        subst (λ o. Holds (shifted_at a o) (erase_first test xs)) (sym q)
          (rw (f.split, erase_first-split test ys x zs f.hit f.missed)
            (shifted-Holds ys x zs (length ys) (subst (Holds a) f.split h) refl))
  ]

  pub read-First :
      {a : Darray A} {xs ys : List A} {x : A} {zs : List A} (test : A → Bool)
      → Holds a xs
      → First test xs ys x zs
      → get_or a.item (length ys) none ≡ some x
  read-First {a} {xs} {ys} {x} {zs} test h f =
      ap (λ b. get_or b (length ys) none) h.block
      ∙ ap (λ l. get_or (map some l ++ h.rest) (length ys) none) f.split
      ∙ ap (λ b. get_or b (length ys) none) (map-split ys (x ∷ zs) h.rest)
      ∙ rw (← length-map ys (λ (y : A). some y))
          (get_or-at_length (map some ys) (some x) (map some zs ++ h.rest) none)

  -- `darray_at_test` returns NULL where no value of the array passes the test, and otherwise the
  -- first that does.
  pub at_test-First :
      {a : Darray A} {xs : List A} (test : A → Bool)
      → Holds a xs
      → ((at_test a test ≡ none) × Misses test xs)
        ⊎ ((ys : List A) × (x : A) × (zs : List A) × First test xs ys x zs
            × (at_test a test ≡ some x))
  unfolding at_test
  at_test-First {a} {xs} test h = elim (found test h) [
    | inl (f, m) ↦ inl (ap (read_at a) f, m)
    | inr (ys, x, zs, f, q) ↦ inr (ys, x, zs, f, ap (read_at a) q ∙ read-First test h f)
  ]

  -- `darray_index_of` returns -1 where no value of the array equals the one sought, and otherwise
  -- the index of the first that does.
  pub index_of-First :
      ⦃e : Eq A⦄
      → {a : Darray A} {xs : List A} (p : A) → Holds a xs
      → ((index_of a p ≡ none) × Misses (λ x. e.beq x p) xs)
        ⊎ ((ys : List A) × (x : A) × (zs : List A) × First (λ x'. e.beq x' p) xs ys x zs
            × (index_of a p ≡ some (length ys)))
  unfolding index_of
  index_of-First ⦃e⦄ p h = found (λ x. e.beq x p) h

-- `darray_forall` calls the function once for each value of the array, in order.
pub forall-Holds {ℓ κ} :
    {A : Type ℓ} {S : Type κ} {a : Darray A} {xs : List A} (func : S → A → S) (s : S)
    → Holds a xs
    → forall a func s ≡ foldl func s xs
unfolding forall
forall-Holds {a} {xs} func s h =
    ap₂ (λ b n. forall_from func b n 0 s) h.block h.counted
    ∙ forall_from-split func [] xs h.rest 0 s refl
