-- ===== src/Fin/Senders.antt =====
-- Messages that pass a test, by sender.
use dumbo_ms.Prelude.{
  ℕ, suc, ◌+◌, ◌-◌, ◌≤◌, arith, ◌≡◌, refl, inl, inr, Bool, true, ◌&&◌, List, [], ◌∷◌, ◌==◌, ==_iff,
  Bool-cases, if◌then◌else◌,
}
use dumbo_ms.Fin.Quorum.{total, total_mono, total_raised}

module _ {ℓ} {A : Type ℓ} (id : A → ℕ) where
  abbrev pub passing : (A → Bool) → List A → ℕ
  passing test [] = 0
  passing test (m ∷ ms) = let rest = passing test ms in if test m then rest + 1 else rest

  abbrev pub passing_of : (A → Bool) → ℕ → List A → ℕ
  passing_of test j [] = 0
  passing_of test j (m ∷ ms) =
      let rest = passing_of test j ms in if test m && (id m == j) then rest + 1 else rest

  -- Every sender is one of the nodes 1 to n.
  abbrev pub InRange : ℕ → List A → Type 0
  InRange n [] = Unit
  InRange n (m ∷ ms) = (1 ≤ id m) × (id m ≤ n) × InRange n ms

  pub passing-total :
      (test : A → Bool) (n : ℕ) (ms : List A)
      → InRange n ms
      → passing test ms ≤ total (λ j. passing_of test (suc j) ms) n
  passing-total test n [] h = omega arith
  passing-total test n (m ∷ ms) h = elim (Bool-cases (test m)) [
    | inl e ↦
        let rest = passing-total test n ms h.2 in
        let low = h.0 in
        let high = h.1 in
        let raised =
          total_raised (λ j. passing_of test (suc j) ms) (λ j. passing_of test (suc j) (m ∷ ms)) n
            (id m - 1) (omega arith) more (own e) in
        let here : passing test (m ∷ ms) ≡ passing test ms + 1 = rw e refl in omega arith
    | inr e ↦
        let rest = passing-total test n ms h.2 in
        let kept =
          total_mono (λ j. passing_of test (suc j) ms) (λ j. passing_of test (suc j) (m ∷ ms)) n
            more in
        let here : passing test (m ∷ ms) ≡ passing test ms = rw e refl in omega arith
  ]
    where
      more : (j : ℕ) → passing_of test (suc j) ms ≤ passing_of test (suc j) (m ∷ ms)
      more j = grind arith

      own :
          test m ≡ true
          → suc (passing_of test (suc (id m - 1)) ms) ≤ passing_of test (suc (id m - 1)) (m ∷ ms)
      own e =
          let low = h.0 in
          let same : id m ≡ suc (id m - 1) = omega arith in
          let k = (==_iff (id m) (suc (id m - 1))).1 same in grind arith
