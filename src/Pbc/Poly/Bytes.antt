-- ===== src/Pbc/Poly/Bytes.antt =====
-- Byte strings of polynomials, arith/poly.c: the count of the coefficients in two bytes, then
-- their byte strings one behind the other.
use native.Mathlib.Nat.{div-add-mod', mod-eq_of_lt, div-lt_iff_lt-mul}
use dumbo_ms.Prelude.{
  ℕ, suc, ◌+◌, ◌*◌, ◌/◌, ◌%◌, ◌<◌, arith, ◌≡◌, refl, ap, ◌∙◌, List, [], ◌∷◌, ◌++◌, append_assoc,
  length, drop, length-append,
}
use dumbo_ms.Pbc.Structure.{Structure, Parsed}
use dumbo_ms.Pbc.Structure.Coding.{IsCoding}
use dumbo_ms.Pbc.Poly.{
  Poly, bytes_of, poly_to_bytes, poly_length_in_bytes, coeffs_from_bytes, poly_from_bytes,
}

drop-append : (xs ys : List ℕ) → drop (length xs) (xs ++ ys) ≡ ys
drop-append [] ys = refl
drop-append (x ∷ xs) ys = drop-append xs ys

-- The two bytes give the count back.
count_bytes : (n : ℕ) → n < 65536 → n % 256 + n / 256 % 256 * 256 ≡ n
count_bytes n h =
    let high : n / 256 < 256 = (div-lt_iff_lt-mul {k = 256} {x = n} {y = 256} (omega arith)).1 h in
    ap (λ t. n % 256 + t * 256) (mod-eq_of_lt high) ∙ (let d = div-add-mod' n 256 in omega arith)

module _ {E : Type 0} {o : Structure E} (c : IsCoding o) where
  coeffs_from_bytes-of :
      (p : Poly E) (rest : List ℕ) (result : ℕ)
      → coeffs_from_bytes o (length p) (bytes_of o p ++ rest) result
        ≡ record { value = p; len = result + length (bytes_of o p) }
  unfolding coeffs_from_bytes bytes_of
  coeffs_from_bytes-of [] rest result =
      let same : result ≡ result + 0 = omega arith in ap (λ n. record { value = []; len = n }) same
  coeffs_from_bytes-of (d ∷ ds) rest result =
      ap (λ b. first (o.from_bytes b) b) (append_assoc (o.to_bytes d) (bytes_of o ds) rest)
      ∙ ap (λ q. first q (o.to_bytes d ++ (bytes_of o ds ++ rest)))
          (c.coding_read d (bytes_of o ds ++ rest))
      ∙ ap (λ b. joined d (coeffs_from_bytes o (length ds) b (result + length (o.to_bytes d))))
          (drop-append (o.to_bytes d) (bytes_of o ds ++ rest))
      ∙ ap (joined d) (coeffs_from_bytes-of ds rest (result + length (o.to_bytes d)))
      ∙ ap (λ n. record { value = d ∷ ds; len = n })
          (let l = length-append (o.to_bytes d) (bytes_of o ds) in omega arith)
    where
      joined : E → Parsed (Poly E) → Parsed (Poly E)
      joined e q = record { value = e ∷ q.value; len = q.len }

      first : Parsed E → List ℕ → Parsed (Poly E)
      first q b = joined q.value (coeffs_from_bytes o (length ds) (drop q.len b) (result + q.len))

  length-bytes : (p : Poly E) → poly_length_in_bytes o p ≡ 2 + length (bytes_of o p)
  unfolding poly_length_in_bytes bytes_of
  length-bytes [] = refl
  length-bytes (d ∷ ds) =
      let l = length-append (o.to_bytes d) (bytes_of o ds) in
      let k = c.coding_length d in let n = length-bytes ds in omega arith

  -- The announced length is the length written, and a polynomial with fewer than 2^16
  -- coefficients reads back from its bytes, whatever follows them.
  pub poly_bytes_roundtrip :
      (p : Poly E) (rest : List ℕ)
      → length p < 65536
      → (poly_length_in_bytes o p ≡ length (poly_to_bytes o p))
        × (poly_from_bytes o (poly_to_bytes o p ++ rest)
            ≡ record { value = p; len = length (poly_to_bytes o p) })
  unfolding poly_to_bytes poly_from_bytes
  poly_bytes_roundtrip p rest h = (
    length-bytes p ∙ two_more,
    ap (λ n. coeffs_from_bytes o n (bytes_of o p ++ rest) 2) (count_bytes (length p) h)
        ∙ coeffs_from_bytes-of p rest 2
        ∙ ap (λ n. record { value = p; len = n }) two_more,
  )
    where
      two_more : 2 + length (bytes_of o p) ≡ suc (suc (length (bytes_of o p)))
      two_more = omega arith
