-- ===== src/Pbc/Generic/Compare.antt =====
-- The default comparison of arith/field.c, which compares byte strings.
use dumbo_ms.Prelude.{
  ℕ, ◌==◌, ==_iff, if◌then◌else◌, ◌≡◌, ◌↔◌, refl, sym, ap, ap₂, ◌∙◌, true, false, Bool-cases, inl,
  inr, List, [], ◌∷◌, append-nil,
}
use dumbo_ms.Pbc.Structure.{Structure}
use dumbo_ms.Pbc.Structure.Coding.{IsCoding}
use dumbo_ms.Pbc.Generic.{memcmp, generic_cmp}

memcmp_equal : (xs bs : List ℕ) → memcmp xs bs ≡ false → xs ≡ bs
memcmp_equal [] [] h = refl
memcmp_equal [] (b ∷ bs) h = cc
memcmp_equal (a ∷ xs) [] h = cc
memcmp_equal (a ∷ xs) (b ∷ bs) h = elim (Bool-cases (a == b)) [
  | inl t ↦ ap₂ (λ u us. u ∷ us) ((==_iff a b).0 t) (memcmp_equal xs bs (rw t at h))
  | inr t ↦ let k : true ≡ false = rw t at h in cc
]

memcmp_self : (xs : List ℕ) → memcmp xs xs ≡ false
memcmp_self [] = refl
memcmp_self (a ∷ xs) = rw ((==_iff a a).1 refl) (memcmp_self xs)

module _ {E : Type 0} {o : Structure E} (c : IsCoding o) where
  -- Elements with one byte string are equal.
  to_bytes_injective : (x y : E) → o.to_bytes x ≡ o.to_bytes y → x ≡ y
  to_bytes_injective x y h = read x ∙ ap (λ t. (o.from_bytes t).value) h ∙ sym (read y)
    where
      read : (z : E) → z ≡ (o.from_bytes (o.to_bytes z)).value
      read z = sym (
          ap (λ t. (o.from_bytes t).value) (sym (append-nil (o.to_bytes z)))
          ∙ ap (λ p. p.value) (c.coding_read z []))

  -- The comparison of two objects returns 0 exactly if their values are equal.
  pub generic_cmp-equal : (st : ℕ → E) (a b : ℕ) → (generic_cmp o st a b ≡ false) ↔ (st a ≡ st b)
  unfolding generic_cmp
  generic_cmp-equal st a b = elim (Bool-cases (a == b)) [
    | inl t ↦ rw t ((λ h. ap st ((==_iff a b).0 t)), (λ h. refl))
    | inr t ↦ rw t (sound, complete)
  ]
    where
      lengths : st a ≡ st b → (o.length_in_bytes (st a) == o.length_in_bytes (st b)) ≡ true
      lengths h =
          (==_iff (o.length_in_bytes (st a)) (o.length_in_bytes (st b))).1 (ap o.length_in_bytes h)

      complete :
          st a ≡ st b
          → (if o.length_in_bytes (st a) == o.length_in_bytes (st b)
              then memcmp (o.to_bytes (st a)) (o.to_bytes (st b))
              else true)
            ≡ false
      complete h = rw (lengths h) (
          ap (λ t. memcmp (o.to_bytes (st a)) (o.to_bytes t)) (sym h)
          ∙ memcmp_self (o.to_bytes (st a)))

      sound :
          (if o.length_in_bytes (st a) == o.length_in_bytes (st b)
              then memcmp (o.to_bytes (st a)) (o.to_bytes (st b))
              else true)
            ≡ false
          → st a ≡ st b
      sound h = elim (Bool-cases (o.length_in_bytes (st a) == o.length_in_bytes (st b))) [
        | inl t ↦
            to_bytes_injective (st a) (st b)
              (memcmp_equal (o.to_bytes (st a)) (o.to_bytes (st b)) (rw t at h))
        | inr t ↦ let k : true ≡ false = rw t at h in cc
      ]
