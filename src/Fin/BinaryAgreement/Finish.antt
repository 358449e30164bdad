-- ===== src/Fin/BinaryAgreement/Finish.antt =====
-- What the finish handler of a binary agreement puts out.
use mathlib.Core.List.{Memᴰ}
use mathlib.Core.List.Memᴰ
use dumbo_ms.Prelude.{
  ℕ, suc, ◌+◌, ◌*◌, ◌≤◌, ◌<◌, arith, ◌≡◌, refl, sym, ap, subst, ◌∙◌, ◌⊎◌, inl, inr, Bool, true,
  false, not, List, [], ◌∷◌, ◌++◌, ◌==◌, ==_iff, Bool-cases, if◌then◌else◌,
}
use dumbo_ms.Fin.Quorum.{total, quorums_meet}
use dumbo_ms.Fin.Messages.{BaMsg}
use dumbo_ms.Fin.Senders.{passing, passing_of, InRange, passing-total}
use dumbo_ms.Fin.BinaryAgreement.{
  Agreement, new_ba, Finishes, new_finishes, finished, handle_finish, finish_loop,
}

abbrev pub sender : BaMsg → ℕ
sender m = m.id

-- A message for the value b.
abbrev pub for_value : Bool → BaMsg → Bool
for_value b m = if b then m.value else not m.value

abbrev count_for : Bool → Finishes → ℕ
count_for b s = if b then s.finish1count else s.finish0count

Memᴰ-snoc : (v y : Bool) (xs : List Bool) → Memᴰ v (xs ++ (y ∷ [])) → Memᴰ v xs ⊎ (v ≡ y)
Memᴰ-snoc v y [] (Memᴰ.head e) = inr e
Memᴰ-snoc v y [] (Memᴰ.tail d) = absurd (Memᴰ.not-nil d)
Memᴰ-snoc v y (x ∷ xs) (Memᴰ.head e) = inl (Memᴰ.head e)
Memᴰ-snoc v y (x ∷ xs) (Memᴰ.tail d) = elim (Memᴰ-snoc v y xs d) [
  | inl k ↦ inl (Memᴰ.tail k)
  | inr e ↦ inr e
]

module _ (c : Agreement) where
  abbrev q : ℕ
  q = c.faults * 2 + 1

  finished-output :
      (b : Bool) (n : ℕ) (s : Finishes) (v : Bool)
      → Memᴰ v (finished c b n s).output
      → Memᴰ v s.output ⊎ ((v ≡ b) × (n ≡ q))
  unfolding finished
  finished-output b n s v = elim (Bool-cases (n == c.faults + 1)) [
    | inl e ↦ rw e (λ d. inl d)
    | inr e ↦ elim (Bool-cases (n == q)) [
      | inr k ↦ rw (e, k) (λ d. inl d)
      | inl k ↦
          rw (e, k)
            (λ d. elim (Memᴰ-snoc v b s.output d) [
              | inl old ↦ inl old
              | inr same ↦ inr (same, (==_iff n q).0 k)
            ])
    ]
  ]

  finished-count :
      (b : Bool) (n : ℕ) (s : Finishes) (v : Bool) → count_for v (finished c b n s) ≡ count_for v s
  unfolding finished
  finished-count b n s v = grind arith

  handle_finish-count :
      (m : BaMsg) (s : Finishes) (v : Bool)
      → count_for v (handle_finish c m s)
        ≡ (if for_value v m then count_for v s + 1 else count_for v s)
  unfolding handle_finish
  handle_finish-count m s v = grind arith

  handle_finish-output :
      (m : BaMsg) (s : Finishes) (v : Bool)
      → Memᴰ v (handle_finish c m s).output
      → Memᴰ v s.output ⊎ (q ≤ count_for v (handle_finish c m s))
  unfolding handle_finish
  handle_finish-output m s v = elim (Bool-cases m.value) [
    | inl e ↦
        let t : Finishes = record s { finish1count = s.finish1count + 1 } in
        rw e (λ d. elim (finished-output true (s.finish1count + 1) t v d) [
          | inl old ↦ inl old
          | inr p ↦ inr (
              let k = finished-count true (s.finish1count + 1) t v in
              let full : count_for v t ≡ s.finish1count + 1 =
                subst (λ b. count_for b t ≡ s.finish1count + 1) (sym p.0) refl in
              let l = p.1 in omega arith)
        ])
    | inr e ↦
        let t : Finishes = record s { finish0count = s.finish0count + 1 } in
        rw e (λ d. elim (finished-output false (s.finish0count + 1) t v d) [
          | inl old ↦ inl old
          | inr p ↦ inr (
              let k = finished-count false (s.finish0count + 1) t v in
              let full : count_for v t ≡ s.finish0count + 1 =
                subst (λ b. count_for b t ≡ s.finish0count + 1) (sym p.0) refl in
              let l = p.1 in omega arith)
        ])
  ]

  -- What the loop puts out had a quorum among what it counted before and the messages.
  finish_loop-output :
      (ms : List BaMsg) (s : Finishes) (v : Bool)
      → Memᴰ v (finish_loop c ms s).output
      → Memᴰ v s.output ⊎ (q ≤ count_for v s + passing sender (for_value v) ms)
  unfolding finish_loop
  finish_loop-output [] s v = λ d. inl d
  finish_loop-output (m ∷ ms) s v = elim (Bool-cases s.returned) [
    | inl e ↦ λ d. inl (subst (λ b. Memᴰ v (if b then s else next).output) e d)
    | inr e ↦ λ d.
        elim (finish_loop-output ms (handle_finish c m s) v
          (subst (λ b. Memᴰ v (if b then s else next).output) e d)) [
            | inl before ↦ elim (handle_finish-output m s v before) [
              | inl old ↦ inl old
              | inr full ↦ inr (let k = handle_finish-count m s v in grind arith)
            ]
            | inr full ↦ inr (let k = handle_finish-count m s v in grind arith)
          ]
  ]
    where
      next : Finishes
      next = finish_loop c ms (handle_finish c m s)

  handle_finish-silent :
      (m : BaMsg) (s : Finishes) → c.faults ≡ 0 → s.output ≡ [] → (handle_finish c m s).output ≡ []
  unfolding handle_finish finished
  handle_finish-silent m s f h = grind arith

  finish_loop-empty :
      (ms : List BaMsg) (s : Finishes)
      → c.faults ≡ 0
      → s.output ≡ []
      → (finish_loop c ms s).output ≡ []
  unfolding finish_loop
  finish_loop-empty [] s f h = h
  finish_loop-empty (m ∷ ms) s f h =
      let rest = finish_loop-empty ms (handle_finish c m s) f (handle_finish-silent m s f h) in
      elim (Bool-cases s.returned) [
        | inl e ↦ ap (λ b. (if b then s else finish_loop c ms (handle_finish c m s)).output) e ∙ h
        | inr e ↦
            ap (λ b. (if b then s else finish_loop c ms (handle_finish c m s)).output) e ∙ rest
      ]

-- Below four nodes a binary agreement puts nothing out, whatever finish messages arrive: the count
-- f + 1, which is tested first, is also 2f + 1.
pub finish_loop-silent :
    (num id mvbaround baround : ℕ) (ms : List BaMsg)
    → num ≤ 3
    → (finish_loop (new_ba num id mvbaround baround) ms new_finishes).output ≡ []
finish_loop-silent num id mvbaround baround ms h =
    finish_loop-empty (new_ba num id mvbaround baround) ms new_finishes
      (unfold new_ba in omega arith) refl

abbrev pub any : BaMsg → Bool
any m = true

passing_of_le :
    (v : Bool) (j : ℕ) (ms : List BaMsg)
    → passing_of sender (for_value v) j ms ≤ passing_of sender any j ms
passing_of_le v j [] = omega arith
passing_of_le v j (m ∷ ms) = let rest = passing_of_le v j ms in grind arith

no_count : (v : Bool) → count_for v new_finishes ≡ 0
no_count true = refl
no_count false = refl

-- A value that is put out has a quorum among the nodes.
quorum_for :
    (f id mvbaround baround : ℕ) (ms : List BaMsg) (v : Bool)
    → InRange sender (3 * f + 1) ms
    → Memᴰ v (finish_loop (new_ba (3 * f + 1) id mvbaround baround) ms new_finishes).output
    → 2 * f + 1 ≤ total (λ j. passing_of sender (for_value v) (suc j) ms) (3 * f + 1)
unfolding new_ba
quorum_for f id mvbaround baround ms v range d =
    elim (finish_loop-output (new_ba (3 * f + 1) id mvbaround baround) ms new_finishes v d) [
      | inl none ↦ absurd (Memᴰ.not-nil none)
      | inr full ↦
          let k = no_count v in
          let sum = passing-total sender (for_value v) (3 * f + 1) ms range in omega arith
    ]

-- Of 3f + 1 nodes at most f are faulty, no node's finish handler hears a sender twice, and an honest
-- sender's messages to the two nodes are for one value: then what the two put out is equal.
pub finish_loop-agree :
    (f id id' mvbaround baround : ℕ) (honest : ℕ → Bool) (ms ns : List BaMsg) (a b : Bool)
    → total (λ j. if honest (suc j) then 0 else 1) (3 * f + 1) ≤ f
    → InRange sender (3 * f + 1) ms
    → InRange sender (3 * f + 1) ns
    → ((j : ℕ) → passing_of sender any j ms ≤ 1)
    → ((j : ℕ) → passing_of sender any j ns ≤ 1)
    → ((j : ℕ) (u v : Bool)
        → honest j ≡ true
        → 0 < passing_of sender (for_value u) j ms
        → 0 < passing_of sender (for_value v) j ns
        → u ≡ v)
    → Memᴰ a (finish_loop (new_ba (3 * f + 1) id mvbaround baround) ms new_finishes).output
    → Memᴰ b (finish_loop (new_ba (3 * f + 1) id' mvbaround baround) ns new_finishes).output
    → a ≡ b
finish_loop-agree f id id' mvbaround baround honest ms ns a b few in_ms in_ns one_ms one_ns truly p
      d =
    let (k, l, for_a, for_b, real) =
      quorums_meet (λ j. passing_of sender (for_value a) (suc j) ms)
        (λ j. passing_of sender (for_value b) (suc j) ns) (λ j. if honest (suc j) then 0 else 1)
        (3 * f + 1) f (omega arith) few (quorum_for f id mvbaround baround ms a in_ms p)
        (quorum_for f id' mvbaround baround ns b in_ns d)
        (λ j. let m = passing_of_le a (suc j) ms in let n = one_ms (suc j) in omega arith)
        (λ j. let m = passing_of_le b (suc j) ns in let n = one_ns (suc j) in omega arith) in
    truly (suc k) a b (not_faulty k real) for_a for_b
  where
    not_faulty : (k : ℕ) → ◌≡◌ {A = ℕ} (if honest (suc k) then 0 else 1) 0 → honest (suc k) ≡ true
    not_faulty k e = grind arith
