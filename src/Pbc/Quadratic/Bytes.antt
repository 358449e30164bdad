-- ===== src/Pbc/Quadratic/Bytes.antt =====
-- Byte strings of pairs, arith/fieldquadratic.c.
use dumbo_ms.Prelude.{
  ℕ, ◌+◌, arith, ◌≡◌, refl, sym, ap, ap₂, ◌∙◌, List, [], ◌∷◌, ◌++◌, append_assoc, length, drop,
  length-append, Option, none, some,
}
use dumbo_ms.Pbc.Structure.{Structure, Parsed}
use dumbo_ms.Pbc.Structure.Coding.{IsCoding}
use dumbo_ms.Pbc.Quadratic.{
  Quad, quad, twice, quad_length, fq_to_bytes, fq_from_bytes, fq_length_in_bytes,
  field_init_quadratic, field_init_fi,
}

drop-append : (xs ys : List ℕ) → drop (length xs) (xs ++ ys) ≡ ys
drop-append [] ys = refl
drop-append (x ∷ xs) ys = drop-append xs ys

module _ {E : Type 0} {o : Structure E} (c : IsCoding o) where
  length-fq_to_bytes :
      (e : Quad E) → length (fq_to_bytes o e) ≡ length (o.to_bytes e.x) + length (o.to_bytes e.y)
  unfolding fq_to_bytes
  length-fq_to_bytes e = length-append (o.to_bytes e.x) (o.to_bytes e.y)

  pub quad_length-bytes :
      (l : Option ℕ)
      → o.fixed_length_in_bytes ≡ l
      → (e : Quad E) → quad_length o l e ≡ length (fq_to_bytes o e)
  unfolding quad_length fq_length_in_bytes
  quad_length-bytes none h e =
      ap₂ (λ m n. m + n) (c.coding_length e.x) (c.coding_length e.y) ∙ sym (length-fq_to_bytes e)
  quad_length-bytes (some n) h e =
      let p = c.coding_fixed n h e.x in
      let q = c.coding_fixed n h e.y in let s = length-fq_to_bytes e in omega arith

  pub twice-bytes :
      (l : Option ℕ)
      → o.fixed_length_in_bytes ≡ l
      → (n : ℕ) → twice l ≡ some n
      → (e : Quad E) → length (fq_to_bytes o e) ≡ n
  twice-bytes none h n k e = ground arith
  twice-bytes (some m) h n k e =
      let p = c.coding_fixed m h e.x in
      let q = c.coding_fixed m h e.y in let s = length-fq_to_bytes e in ground arith

  pub fq_from_bytes-to :
      (e : Quad E) (rest : List ℕ)
      → fq_from_bytes o (fq_to_bytes o e ++ rest)
        ≡ record { value = e; len = length (fq_to_bytes o e) }
  unfolding fq_from_bytes fq_to_bytes
  fq_from_bytes-to e rest =
      ap (fq_from_bytes o) (append_assoc (o.to_bytes e.x) (o.to_bytes e.y) rest)
      ∙ ap (λ p. second p (o.to_bytes e.x ++ (o.to_bytes e.y ++ rest)))
          (c.coding_read e.x (o.to_bytes e.y ++ rest))
      ∙ ap (λ t. joined (record { value = e.x; len = length (o.to_bytes e.x) }) (o.from_bytes t))
          (drop-append (o.to_bytes e.x) (o.to_bytes e.y ++ rest))
      ∙ ap (joined (record { value = e.x; len = length (o.to_bytes e.x) })) (c.coding_read e.y rest)
      ∙ ap (λ n. record { value = e; len = n })
          (sym (length-append (o.to_bytes e.x) (o.to_bytes e.y)))
    where
      joined : Parsed E → Parsed E → Parsed (Quad E)
      joined p q = record { value = quad p.value q.value; len = p.len + q.len }

      second : Parsed E → List ℕ → Parsed (Quad E)
      second p bytes = joined p (o.from_bytes (drop p.len bytes))

  -- The byte strings of pairs keep the promises of those of the base: for the extension by a
  -- root of any nqr, and for the one by the root of -1.
  pub quadratic-IsCoding :
      (nqr : E) → IsCoding (field_init_quadratic o nqr) × IsCoding (field_init_fi o)
  unfolding field_init_quadratic field_init_fi
  quadratic-IsCoding nqr = (
    record {
      coding_length = quad_length-bytes o.fixed_length_in_bytes refl;
      coding_fixed = twice-bytes o.fixed_length_in_bytes refl;
      coding_read = fq_from_bytes-to;
    },
    record {
      coding_length = quad_length-bytes o.fixed_length_in_bytes refl;
      coding_fixed = twice-bytes o.fixed_length_in_bytes refl;
      coding_read = fq_from_bytes-to;
    },
  )
