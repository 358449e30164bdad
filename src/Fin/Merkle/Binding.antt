-- ===== src/Fin/Merkle/Binding.antt =====
-- Two paths that VerifyPath accepts at one place for one root.
use dumbo_ms.Prelude.{
  ℕ, suc, ◌-◌, ◌/◌, ◌%◌, ◌≤◌, ◌≡◌, ◌≢◌, refl, sym, ap, ◌∙◌, arith, inl, inr, ◌⊎◌, Bool-cases, true,
  false, Bool, List, [], ◌∷◌, ◌++◌, ◌==◌, ltb, if◌then◌else◌, length, get_or, subst, length-append,
  take, drop, take-append,
}
use dumbo_ms.Fin.Messages.{Bytes, bytes_equal, bytes_equal_refl, bytes_equal-true}
use dumbo_ms.Fin.Merkle.{root_of, parent, verify_rest, verify_from, verify_path}

same_or_not : (x y : Bytes) → (x ≡ y) ⊎ (x ≢ y)
same_or_not x y = elim (Bool-cases (bytes_equal x y)) [
  | inl e ↦ inl (bytes_equal-true x y e)
  | inr e ↦ inr (λ same.
      let k : bytes_equal x y ≡ true =
        subst (λ z. bytes_equal x z ≡ true) same (bytes_equal_refl x) in
      absurd (ground (arith, e, k)))
]

drop-append : (xs ys : Bytes) → drop (length xs) (xs ++ ys) ≡ ys
drop-append [] ys = refl
drop-append (x ∷ xs) ys = drop-append xs ys

-- Equal strings have equal first parts, and equal last parts, of one length.
first_parts : (a b h g : Bytes) → length a ≡ length b → a ++ h ≡ b ++ g → a ≡ b
first_parts a b h g e k =
    sym (take-append a h) ∙ ap (take (length a)) k ∙ ap (λ n. take n (b ++ g)) e ∙ take-append b g

last_parts : (a b h g : Bytes) → length a ≡ length b → h ++ a ≡ g ++ b → a ≡ b
last_parts a b h g e k =
    let lengths : length h ≡ length g =
      omega (arith, length-append h a, length-append g b, ap length k) in
    sym (drop-append h a)
    ∙ ap (drop (length h)) k
    ∙ ap (λ n. drop n (g ++ b)) lengths
    ∙ drop-append g b

module _ (sha256 : Bytes → Bytes) where
  abbrev pub Collision : Type 0
  Collision = (x : Bytes) × (y : Bytes) × (x ≢ y) × (sha256 x ≡ sha256 y)

  same_hash : (x y : Bytes) → sha256 x ≡ sha256 y → (x ≡ y) ⊎ Collision
  same_hash x y e = elim (same_or_not x y) [
    | inl same ↦ inl same
    | inr other ↦ inr (x, y, other, e)
  ]

  same_parent :
      (k : ℕ) (a b h g : Bytes)
      → length a ≡ length b
      → parent sha256 k a h ≡ parent sha256 k b g
      → (a ≡ b) ⊎ Collision
  same_parent k a b h g e = by (k % 2 == 0)
    where
      by :
          (even : Bool)
          → (if even then sha256 (a ++ h) else sha256 (h ++ a))
            ≡ (if even then sha256 (b ++ g) else sha256 (g ++ b))
          → (a ≡ b) ⊎ Collision
      by true p = elim (same_hash (a ++ h) (b ++ g) p) [
        | inl same ↦ inl (first_parts a b h g e same)
        | inr found ↦ inr found
      ]
      by false p = elim (same_hash (h ++ a) (g ++ b) p) [
        | inl same ↦ inl (last_parts a b h g e same)
        | inr found ↦ inr found
      ]

  abbrev last_of : List Bytes → Bytes
  last_of [] = []
  last_of (x ∷ []) = x
  last_of (x ∷ y ∷ xs) = last_of (y ∷ xs)

  get_or-last_of :
      (x : Bytes) (path : List Bytes) → get_or (x ∷ path) (length path) [] ≡ last_of (x ∷ path)
  get_or-last_of x [] = refl
  get_or-last_of x (y ∷ path) = get_or-last_of y path

  root-last_of : (x : Bytes) (path : List Bytes) → root_of (x ∷ path) ≡ last_of (x ∷ path)
  root-last_of x path =
      let place : suc (length path) - 1 ≡ length path = omega arith in
      ap (λ k. get_or (x ∷ path) k []) place ∙ get_or-last_of x path

  -- What VerifyPath has seen of a path that it accepts.
  accepted_parts :
      (root : Bytes) (path : List Bytes) (k : ℕ)
      → verify_path sha256 root path k ≡ true
      → (3 ≤ length path) × (root ≡ root_of path) × (verify_from sha256 path k ≡ true)
  unfolding verify_path
  accepted_parts root path k e = elim (Bool-cases (ltb (length path) 3)) [
    | inl short ↦ absurd (ground (arith, short, e))
    | inr long ↦ elim (Bool-cases (bytes_equal root (root_of path))) [
      | inl same ↦ (ground arith, bytes_equal-true root (root_of path) same, rw (long, same) at e)
      | inr other ↦ absurd (ground (arith, long, other, e))
    ]
  ]

  module _ (digests : (x : Bytes) → length (sha256 x) ≡ 32) where
    length-parent : (k : ℕ) (a h : Bytes) → length (parent sha256 k a h) ≡ 32
    length-parent k a h = elim (Bool-cases (k % 2 == 0)) [
      | inl e ↦ rw e (digests (a ++ h))
      | inr e ↦ rw e (digests (h ++ a))
    ]

    rests_bind :
        (a b : Bytes) (k : ℕ) (p q : List Bytes)
        → length a ≡ length b
        → length p ≡ length q
        → last_of p ≡ last_of q
        → verify_rest sha256 a k p ≡ true
        → verify_rest sha256 b k q ≡ true
        → (a ≡ b) ⊎ Collision
    unfolding verify_rest
    rests_bind a b k [] q e sizes ends u v = absurd (ground arith)
    rests_bind a b k (h ∷ p) [] e sizes ends u v = absurd (ground arith)
    rests_bind a b k (h ∷ []) (g ∷ []) e sizes ends u v =
        inl (bytes_equal-true a h u ∙ ends ∙ sym (bytes_equal-true b g v))
    rests_bind a b k (h ∷ []) (g ∷ g' ∷ q) e sizes ends u v = absurd (omega arith)
    rests_bind a b k (h ∷ h' ∷ p) (g ∷ []) e sizes ends u v = absurd (omega arith)
    rests_bind a b k (h ∷ h' ∷ p) (g ∷ g' ∷ q) e sizes ends u v =
        elim (rests_bind (parent sha256 k a h) (parent sha256 k b g) (k / 2) (h' ∷ p) (g' ∷ q)
          (length-parent k a h ∙ sym (length-parent k b g)) (omega arith) ends u v) [
            | inl same ↦ same_parent k a b h g e same
            | inr found ↦ inr found
          ]

    -- Two paths of one length that are accepted at one place for one root begin with one shard, or
    -- they show a collision of the hash, whose values are 32 bytes long.
    pub verify_path-binds :
        (root x y : Bytes) (p q : List Bytes) (index : ℕ)
        → length p ≡ length q
        → verify_path sha256 root (x ∷ p) index ≡ true
        → verify_path sha256 root (y ∷ q) index ≡ true
        → (x ≡ y) ⊎ Collision
    unfolding verify_path
    verify_path-binds root x y [] q index sizes u v =
        absurd (let k = accepted_parts root (x ∷ []) index u in omega arith)
    verify_path-binds root x y (h ∷ p) [] index sizes u v = absurd (omega arith)
    verify_path-binds root x y (h ∷ p) (g ∷ q) index sizes u v =
        let k = accepted_parts root (x ∷ h ∷ p) index u in
        let l = accepted_parts root (y ∷ g ∷ q) index v in
        let ends = sym (root-last_of x (h ∷ p)) ∙ sym k.1 ∙ l.1 ∙ root-last_of y (g ∷ q) in
        elim (rests_bind (sha256 x) (sha256 y) index (h ∷ p) (g ∷ q) (digests x ∙ sym (digests y))
          sizes ends k.2 l.2) [ inl same ↦ same_hash x y same | inr found ↦ inr found ]
