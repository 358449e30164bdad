-- ===== src/Fin/ReedSolomon/Prefix.antt =====
-- What Reconstruct makes of complete shards.
use dumbo_ms.Prelude.{
  ℕ, zero, suc, ◌+◌, ◌-◌, ◌≤◌, ◌<◌, ◌≡◌, refl, sym, ap, ◌∙◌, arith, tests, inl, inr, Bool-cases,
  true, false, List, [], ◌∷◌, ◌++◌, some, append_assoc, append-nil, length, take, take_all,
  take-append, length-append, length-take, leb, ltb,
}
use dumbo_ms.Fin.Messages.{Bytes}
use dumbo_ms.Fin.ReedSolomon.{append_until, collect}

abbrev pub joined : List Bytes → Bytes
joined [] = []
joined (s ∷ ss) = s ++ joined ss

abbrev pub AllFilled : List Bytes → Type 0
AllFilled [] = Unit
AllFilled (s ∷ ss) = (0 < length s) × AllFilled ss

take_nil : (n : ℕ) → take {A = ℕ} n [] ≡ []
take_nil zero = refl
take_nil (suc n) = refl

take_within : (n : ℕ) (xs ys : Bytes) → n ≤ length xs → take n (xs ++ ys) ≡ take n xs
take_within zero xs ys h = refl
take_within (suc n) [] ys h = absurd (omega arith)
take_within (suc n) (x ∷ xs) ys h = ap (λ l. x ∷ l) (take_within n xs ys (omega arith))

take_beyond :
    (n : ℕ) (xs ys : Bytes) → length xs ≤ n → take n (xs ++ ys) ≡ xs ++ take (n - length xs) ys
take_beyond n [] ys h = let same : n ≡ n - 0 = omega arith in ap (λ k. take k ys) same
take_beyond zero (x ∷ xs) ys h = absurd (omega arith)
take_beyond (suc n) (x ∷ xs) ys h =
    let same : n - length xs ≡ suc n - suc (length xs) = omega arith in
    ap (λ l. x ∷ l) (take_beyond n xs ys (omega arith) ∙ ap (λ k. xs ++ take k ys) same)

append_until-take :
    (s : Bytes) (m : ℕ) (out : Bytes)
    → length out < m
    → append_until s m out ≡ out ++ take (m - length out) s
unfolding append_until
append_until-take [] m out h = sym (ap (λ l. out ++ l) (take_nil (m - length out)) ∙ append-nil out)
append_until-take (b ∷ s) m out h = elim (Bool-cases (leb m (length out + 1))) [
  | inl e ↦ let one : m - length out ≡ 1 = omega tests in rw (e, one) refl
  | inr e ↦
      let more : m - length out ≡ suc (m - length (out ++ (b ∷ []))) =
        ground (arith, length-append out (b ∷ [])) in
      rw (e, more)
        (append_until-take s m (out ++ (b ∷ [])) (ground (arith, length-append out (b ∷ [])))
          ∙ append_assoc out (b ∷ []) (take (m - length (out ++ (b ∷ []))) s))
]

-- A prefix of the shards one after the other, of the length of the message.
pub collect-take :
    (ss : List Bytes) (rounds m : ℕ) (out : Bytes)
    → AllFilled ss
    → length out < m
    → m ≤ length out + rounds
    → m ≤ length out + length (joined ss)
    → collect ss rounds m out ≡ some (out ++ take (m - length out) (joined ss))
unfolding collect
collect-take ss zero m out filled few rounds h = absurd (omega arith)
collect-take [] (suc r) m out filled few rounds h = absurd (omega arith)
collect-take (s ∷ ss) (suc r) m out filled few rounds h =
    elim (Bool-cases (ltb (length out + length s) m)) [
      | inl short ↦
          let below : length out + length s < m = ground arith in
          let whole : append_until s m out ≡ out ++ s =
            append_until-take s m out few
            ∙ ap (λ l. out ++ l) (take_all (m - length out) s (omega arith)) in
          let few_yet : length (out ++ s) < m = omega (arith, length-append out s) in
          let goes_on : leb m (length (out ++ s)) ≡ false = ground (arith, few_yet) in
          let next : m - length (out ++ s) ≡ m - length out - length s =
            omega (arith, length-append out s) in
          rw (whole, goes_on)
            (collect-take ss r m (out ++ s) filled.1 few_yet (omega (arith, length-append out s))
                (omega (arith, length-append out s, length-append s (joined ss)))
              ∙ ap some (
                  ap (λ k. (out ++ s) ++ take k (joined ss)) next
                  ∙ append_assoc out s (take (m - length out - length s) (joined ss))
                  ∙ sym (
                      ap (λ l. out ++ l)
                        (take_beyond (m - length out) s (joined ss) (omega arith)))))
      | inr long ↦
          let enough : m ≤ length out + length s = ground arith in
          let part : append_until s m out ≡ out ++ take (m - length out) s =
            append_until-take s m out few in
          let ends : leb m (length (out ++ take (m - length out) s)) ≡ true =
            ground (
              arith,
              length-append out (take (m - length out) s),
              length-take (m - length out) s,
            ) in
          rw (part, ends)
            (ap (λ l. some (out ++ l))
              (sym (take_within (m - length out) s (joined ss) (omega arith))))
    ]

-- Shards that are not empty and, one after the other, begin with the message give the message.
pub collect-message :
    (ss : List Bytes) (input rest : Bytes)
    → AllFilled ss
    → joined ss ≡ input ++ rest
    → collect ss (length input) (length input) [] ≡ some input
unfolding collect
collect-message [] [] rest filled e = refl
collect-message (s ∷ ss) [] rest filled e = refl
collect-message ss (x ∷ input) rest filled e =
    let m = length (x ∷ input) in
    let exact : m - 0 ≡ m = omega arith in
    collect-take ss m m [] filled (omega arith) (omega arith)
      (omega (arith, ap length e, length-append (x ∷ input) rest))
    ∙ ap some (ap (λ k. take k (joined ss)) exact ∙ ap (take m) e ∙ take-append (x ∷ input) rest)
