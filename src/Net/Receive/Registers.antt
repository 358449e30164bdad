-- ===== src/Net/Receive/Registers.antt =====
-- What a registration sends to its channel and what it leaves in the buffer.
use dumbo_ms.Prelude.{
  ℕ, suc, ◌+◌, ◌-◌, ◌≤◌, ◌≡◌, refl, sym, ap, ◌∙◌, subst, arith, inl, inr, Bool-cases, true, false,
  List, [], ◌∷◌, ◌++◌, length, drop, append_assoc, append-nil, if◌then◌else◌,
}
use dumbo_ms.Prelude.Int.{ℤ, ltb_ℤ, ◌≤ℤ◌, ◌==ℤ◌, above_of_ne, parts_of_eq}
use dumbo_ms.Net.Messages.{ConsMsg, size, total, Least, IsSorted}
use dumbo_ms.Net.Receive.{RcvBuf, Registering, register_loop, tagged, register_msg_ch_by_priority}

-- By whether there is a message of the priority.
abbrev pub choose {ℓ} : {A : Type ℓ} → List ConsMsg → A → A → A
choose [] x y = x
choose (m ∷ ms) x y = y

module _ (p : ℤ) where
  -- The messages of the priority `p`.
  abbrev pub equals : List ConsMsg → List ConsMsg
  equals [] = []
  equals (m ∷ b) = let rest = equals b in if m.priority ==ℤ p then m ∷ rest else rest

  -- The buffer from its first message above `p` on, and the number of messages before.
  abbrev pub above : List ConsMsg → List ConsMsg
  above [] = []
  above (m ∷ b) = let rest = above b in if ltb_ℤ p m.priority then m ∷ b else rest

  abbrev upto : List ConsMsg → ℕ
  upto [] = 0
  upto (m ∷ b) = let rest = upto b in if ltb_ℤ p m.priority then 0 else suc rest

  drop-upto : (b : List ConsMsg) → drop (upto b) b ≡ above b
  drop-upto [] = refl
  drop-upto (m ∷ b) = elim (Bool-cases (ltb_ℤ p m.priority)) [
    | inl e ↦ rw e refl
    | inr e ↦ rw e (drop-upto b)
  ]

  above-IsSorted : (b : List ConsMsg) → IsSorted b → IsSorted (above b)
  above-IsSorted [] s = s
  above-IsSorted (m ∷ b) s = elim (Bool-cases (ltb_ℤ p m.priority)) [
    | inl e ↦ rw e s
    | inr e ↦ rw e (above-IsSorted b s.1)
  ]

  length-above : (b : List ConsMsg) → length (above b) ≤ length b
  length-above [] = omega arith
  length-above (m ∷ b) = elim (Bool-cases (ltb_ℤ p m.priority)) [
    | inl e ↦ rw e (omega arith)
    | inr e ↦ rw e (omega (arith, length-above b))
  ]

  not_equal : (m : ConsMsg) → ltb_ℤ p m.priority ≡ true → (m.priority ==ℤ p) ≡ false
  not_equal m e = elim (Bool-cases (m.priority ==ℤ p)) [
    | inl same ↦
        let k = subst (λ q. ltb_ℤ p q ≡ true) (parts_of_eq m.priority p same) e in
        absurd (ground arith)
    | inr other ↦ other
  ]

  none_equal :
      (m : ConsMsg) (b : List ConsMsg) → ltb_ℤ p m.priority ≡ true → Least m b → equals b ≡ []
  none_equal m [] e l = refl
  none_equal m (x ∷ b) e l =
      let high : ltb_ℤ p x.priority ≡ true = ground arith in
      rw (not_equal x high) (none_equal m b e l.1)

  pub total-parts : (b : List ConsMsg) → IsSorted b → total (above b) + total (equals b) ≤ total b
  total-parts [] s = omega arith
  total-parts (m ∷ b) s = elim (Bool-cases (ltb_ℤ p m.priority)) [
    | inl e ↦ rw (e, not_equal m e, none_equal m b e s.0) (omega arith)
    | inr e ↦ elim (Bool-cases (m.priority ==ℤ p)) [
      | inl same ↦ rw (e, same) (omega (arith, total-parts b s.1))
      | inr other ↦ rw (e, other) (omega (arith, total-parts b s.1))
    ]
  ]

  none_upto :
      (m : ConsMsg) (b : List ConsMsg) → p ≤ℤ m.priority → Least m b → equals b ≡ [] → upto b ≡ 0
  none_upto m [] h l e = refl
  none_upto m (x ∷ b) h l e = elim (Bool-cases (x.priority ==ℤ p)) [
    | inl same ↦ absurd (ground (arith, same, e))
    | inr other ↦ rw (above_of_ne p x.priority (omega arith) other) refl
  ]

  abbrev Ends : List ConsMsg → ℕ → Registering → Registering → Type 0
  Ends b i r t =
      (t.sent ≡ r.sent ++ equals b)
      × (t.mem_use + total (equals b) ≡ r.mem_use)
      × (t.cut_index ≡ choose (equals b) r.cut_index (i + upto b))

  chosen_next :
      (es : List ConsMsg) (i n c : ℕ)
      → (es ≡ [] → n ≡ 0)
      → c ≡ choose es (i + 1) (i + 1 + n)
      → c ≡ i + suc n
  chosen_next [] i n c none_more h = let k = none_more refl in omega arith
  chosen_next (x ∷ es) i n c none_more h = omega arith

  chosen_skip :
      (es : List ConsMsg) (i n c d : ℕ) → c ≡ choose es d (i + 1 + n) → c ≡ choose es d (i + suc n)
  chosen_skip [] i n c d h = h
  chosen_skip (x ∷ es) i n c d h = omega arith

  loop-Ends :
      (b : List ConsMsg) (i : ℕ) (r : Registering)
      → IsSorted b
      → total b ≤ r.mem_use
      → Ends b i r (register_loop p b i r)
  unfolding register_loop
  loop-Ends [] i r s h = (sym (append-nil r.sent), omega arith, refl)
  loop-Ends (m ∷ b) i r s h = elim (Bool-cases (ltb_ℤ p m.priority)) [
    | inl e ↦
        rw (e, not_equal m e, none_equal m b e s.0) (sym (append-nil r.sent), omega arith, refl)
    | inr e ↦ elim (Bool-cases (m.priority ==ℤ p)) [
      | inl same ↦
          let low : p ≤ℤ m.priority =
            subst (λ q. q ≤ℤ m.priority) (parts_of_eq m.priority p same) (omega arith) in
          let rest =
            loop-Ends b (i + 1)
              (record {
                mem_use = r.mem_use - size m;
                cut_index = i + 1;
                sent = r.sent ++ (m ∷ []);
              })
              s.1 (omega arith) in
          rw (e, same)
            (
              rest.0 ∙ append_assoc r.sent (m ∷ []) (equals b),
              omega (arith, rest.1),
              chosen_next (equals b) i (upto b) _ (none_upto m b low s.0) rest.2,
            )
      | inr other ↦
          let rest = loop-Ends b (i + 1) r s.1 (omega arith) in
          rw (e, other) (rest.0, rest.1, chosen_skip (equals b) i (upto b) _ r.cut_index rest.2)
    ]
  ]

chosen_drop :
    (es b : List ConsMsg) (n c : ℕ) → c ≡ choose es 0 n → drop c b ≡ choose es b (drop n b)
chosen_drop [] b n c h = ap (λ k. drop k b) h
chosen_drop (x ∷ es) b n c h = ap (λ k. drop k b) h

-- On a sorted buffer a registration for a priority sends all messages of that priority in their
-- order, takes their bytes off the count, and where there is one leaves just the messages of higher
-- priorities; where there is none, it leaves the buffer as it is.
pub register-ends :
    (p : ℤ) (ch : ℕ) (s : RcvBuf)
    → IsSorted s.queue.buf
    → total s.queue.buf ≤ s.queue.mem_use
    → ((register_msg_ch_by_priority p ch s).registered
        ≡ s.registered ++ tagged ch (equals p s.queue.buf))
      × ((register_msg_ch_by_priority p ch s).queue.mem_use + total (equals p s.queue.buf)
          ≡ s.queue.mem_use)
      × ((register_msg_ch_by_priority p ch s).queue.buf
          ≡ choose (equals p s.queue.buf) s.queue.buf (above p s.queue.buf))
unfolding register_msg_ch_by_priority
register-ends p ch s sorted counted =
    let r : Registering = record { mem_use = s.queue.mem_use; cut_index = 0; sent = [] } in
    let e = loop-Ends p s.queue.buf 0 r sorted counted in
    (
      ap (λ ms. s.registered ++ tagged ch ms) e.0,
      e.1,
      chosen_drop (equals p s.queue.buf) s.queue.buf (upto p s.queue.buf) _
            (e.2 ∙ ap (choose (equals p s.queue.buf) 0) (omega arith))
          ∙ ap (choose (equals p s.queue.buf) s.queue.buf) (drop-upto p s.queue.buf),
    )

-- What is left is sorted, of the number and within the bytes that there were.
pub chosen_keeps :
    (p : ℤ) (es b : List ConsMsg) (mem left : ℕ)
    → IsSorted b
    → total b ≤ mem
    → left + total es ≡ mem
    → total (above p b) + total es ≤ total b
    → IsSorted (choose es b (above p b))
      × (length (choose es b (above p b)) ≤ length b)
      × (total (choose es b (above p b)) ≤ left)
chosen_keeps p [] b mem left s h e k = (s, omega arith, omega arith)
chosen_keeps p (x ∷ es) b mem left s h e k = (above-IsSorted p b s, length-above p b, omega arith)
