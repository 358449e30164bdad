-- ===== src/Pbc/Darray/Refine.antt =====
-- A dynamic array of misc/darray.c holds a list: each operation against its list counterpart.
use dumbo_ms.Prelude.{
  ◌^◌, ℕ, ◌+◌, ◌-◌, ◌≤◌, ◌<◌, ◌≡◌, refl, sym, ap, ◌∙◌, none, some, List, [], ◌∷◌, ◌++◌, map,
  append_assoc, length, get_elem?, get_or, set, take, drop, replicate, arith, length-append,
  length-map, length-replicate, length-take, length-drop, length-set, take_all, ==_iff, ◌≢◌,
  ℕ_discrete,
}
use dumbo_ms.Pbc.Darray.{
  remove_all, clear, Darray, Cell, memmove_down, max_init, init, remove_last, grown, append,
  remove_index, at, realloc_to, copy, realloc, malloc, next_max,
}
use dumbo_ms.Pbc.Darray.Blocks.{
  take-map-append, memmove_down-split, set-map-append, get_or-map-append, length-memmove_down,
  map-split, length-realloc,
}

module _ {ℓ} {A : Type ℓ} where
  -- The array `a` is well formed and holds the values `xs`; `rest` is the unused end of its block.
  pub record Holds (a : Darray A) (xs : List A) : Type ℓ where
    pub rest : List (Cell A)
    pub block : a.item ≡ map some xs ++ rest
    pub counted : a.count ≡ length xs
    pub sized : a.max ≡ length a.item

  pub init-Holds : Holds init []
  unfolding init
  init-Holds = record { rest = malloc max_init; block = refl; counted = refl; sized = refl }

  -- A block with room for one more value takes it behind those it holds.
  put-Holds :
      (a : Darray A) (xs : List A) (p : A)
      → Holds a xs
      → a.count < a.max
      → Holds
          (record a { item = set a.item a.count (some p); count = a.count + 1 })
          (xs ++ (p ∷ []))
  put-Holds a xs p h lt = go h.rest h.block
    where
      go :
          (rest : List (Cell A))
          → a.item ≡ map some xs ++ rest
          → Holds
              (record a { item = set a.item a.count (some p); count = a.count + 1 })
              (xs ++ (p ∷ []))
      go [] e = absurd (
          omega (
            arith,
            h.counted,
            h.sized,
            ap length e,
            length-append (map some xs) [],
            length-map xs (λ (x : A). some x),
          ))
      go (c ∷ rest) e = record {
        rest = rest;
        block = ap (λ b. set b a.count (some p)) e ∙ set-map-append xs c rest p a.count h.counted;
        counted = omega (arith, h.counted, length-append xs (p ∷ []));
        sized = rw length-set h.sized;
      }

  -- A block that is enlarged keeps its values.
  resized-Holds :
      {a : Darray A} {xs : List A} (size : ℕ)
      → Holds a xs
      → a.max ≤ size
      → Holds (record a { max = size; item = realloc a.item size }) xs
  resized-Holds {a} {xs} size h le = record {
    rest = h.rest ++ fresh;
    block =
        ap (λ b. b ++ fresh) (take_all size a.item (omega (arith, h.sized)))
        ∙ ap (λ b. b ++ fresh) h.block
        ∙ append_assoc (map some xs) h.rest fresh;
    counted = h.counted;
    sized = omega (
      arith,
      h.sized,
      length-append (take size a.item) fresh,
      length-take size a.item,
      length-replicate {A = Cell A} (size - length a.item) none,
    );
  }
    where
      fresh : List (Cell A)
      fresh = replicate (size - length a.item) none

  grown-full :
      (a : Darray A)
      → a.count ≡ a.max
      → grown a ≡ record a { max = next_max a.max; item = realloc a.item (next_max a.max) }
  unfolding grown
  grown-full a e = rw ((==_iff a.count a.max).1 e)

  grown-room : (a : Darray A) → a.count ≢ a.max → grown a ≡ a
  unfolding grown
  grown-room a e = ground arith

  pub count-le-max : {a : Darray A} {xs : List A} → Holds a xs → a.count ≤ a.max
  count-le-max {a} {xs} h = omega (
    arith,
    h.counted,
    h.sized,
    ap length h.block,
    length-append (map some xs) h.rest,
    length-map xs (λ (x : A). some x),
  )

  -- `darray_append` puts its value behind those that the array holds, whether or not the block has
  -- to grow for it, and leaves the array well formed.
  pub append-Holds :
      {a : Darray A} {xs : List A} (p : A) → Holds a xs → Holds (append a p) (xs ++ (p ∷ []))
  unfolding append
  append-Holds {a} {xs} p h = elim (ℕ_discrete a.count a.max) [
    | yes e ↦
        rw (grown-full a e)
          (put-Holds _ xs p (resized-Holds (next_max a.max) h (ground arith)) (ground arith))
    | no e ↦ rw (grown-room a e) (put-Holds a xs p h (omega (arith, count-le-max h)))
  ]

  -- In range, `darray_at` reads the value of the list.
  pub at-Holds :
      {a : Darray A} {xs : List A} (i : ℕ) → Holds a xs → i < length xs → at a i ≡ get_elem? xs i
  unfolding at
  at-Holds {a} {xs} i h lt = ap (λ b. get_or b i none) h.block ∙ get_or-map-append xs h.rest i lt

  -- One value fewer, moved up by `memmove`.
  pub moved-Holds :
      {a : Darray A} (ys : List A) (x : A) (zs : List A) (n : ℕ)
      → Holds a (ys ++ (x ∷ zs))
      → n ≡ length ys
      → Holds
          (record a { count = a.count - 1; item = memmove_down a.item n (a.count - 1 - n) })
          (ys ++ zs)
  moved-Holds {a} ys x zs n h e =
      let (tail, p, l) =
        memmove_down-split ys x zs h.rest n (a.count - 1 - n) e
          (omega (arith, h.counted, length-append ys (x ∷ zs))) in
      record {
        rest = tail;
        block = ap (λ b. memmove_down b n (a.count - 1 - n)) h.block ∙ p;
        counted = omega (arith, h.counted, length-append ys (x ∷ zs), length-append ys zs);
        sized =
            h.sized
            ∙ sym (
                length-memmove_down a.item n (a.count - 1 - n)
                  (omega (arith, h.counted, h.sized, count-le-max h, length-append ys (x ∷ zs))));
      }

  -- `darray_remove_index` takes out the value at an index in range, keeps the order of the rest and
  -- leaves the array well formed.
  pub remove_index-Holds :
      {a : Darray A} (ys : List A) (x : A) (zs : List A)
      → Holds a (ys ++ (x ∷ zs))
      → Holds (remove_index a (length ys)) (ys ++ zs)
  unfolding remove_index
  remove_index-Holds ys x zs h = moved-Holds ys x zs (length ys) h refl

  -- `darray_copy` makes the destination hold what the source holds, whatever it held before.
  pub copy-Holds :
      (dst : Darray A) {src : Darray A} {xs : List A} → Holds src xs → Holds (copy dst src) xs
  unfolding copy realloc_to
  copy-Holds dst {src} {xs} h = record {
    rest = drop src.count (realloc dst.item src.count);
    block =
        ap (λ l. l ++ drop src.count (realloc dst.item src.count))
          (ap (take src.count) h.block ∙ take-map-append xs h.rest src.count h.counted);
    counted = h.counted;
    sized = omega (
      arith,
      h.counted,
      h.sized,
      count-le-max h,
      length-append (take src.count src.item) (drop src.count (realloc dst.item src.count)),
      length-take src.count src.item,
      length-drop src.count (realloc dst.item src.count),
      length-realloc dst.item src.count,
    );
  }

  pub remove_last-Holds :
      {a : Darray A} (xs : List A) (x : A) → Holds a (xs ++ (x ∷ [])) → Holds (remove_last a) xs
  unfolding remove_last
  remove_last-Holds {a} xs x h = record {
    rest = some x ∷ h.rest;
    block = h.block ∙ map-split xs (x ∷ []) h.rest;
    counted = omega (arith, h.counted, length-append xs (x ∷ []));
    sized = h.sized;
  }

  pub remove_all-Holds : (a : Darray A) → Holds (remove_all a) []
  unfolding remove_all
  remove_all-Holds a = record { rest = malloc max_init; block = refl; counted = refl; sized = refl }

  pub clear-Holds : (a : Darray A) → Holds (clear a) []
  unfolding clear
  clear-Holds a = record { rest = []; block = refl; counted = refl; sized = refl }

  -- On a well-formed array whose block has fewer than 2^30 cells, `darray_append` keeps both `int` fields below 2^31.
  pub append_bounds :
      {a : Darray A} {xs : List A} (p : A)
      → Holds a xs
      → a.max < 2 ^ 30
      → ((append a p).max < 2 ^ 31) × ((append a p).count < 2 ^ 31)
  unfolding append grown
  append_bounds p h lt = ground (arith, count-le-max h)
