-- ===== src/Fin/Driver/Turns.antt =====
-- What the slices that the goroutine of Run shares hold between two of its turns.
use mathlib.Core.List.{Memᴰ}
use mathlib.Core.Option.{some-injective, none-ne-some}
use dumbo_ms.Prelude.{
  ℕ, zero, suc, ◌+◌, ◌-◌, ◌≤◌, ◌≡◌, refl, sym, ap, ◌∙◌, subst, arith, inl, inr, ◌⊎◌, Bool, true,
  false, ◌&&◌, Bool-cases, Option-cases, leb, List, [], ◌∷◌, Option, none, some, length, get_or,
  set, length-set, replicate, length-replicate, ℕ_discrete,
}
use dumbo_ms.Fin.Messages.{Bytes}
use dumbo_ms.Fin.Driver.{
  Outputs, RbcOut, new_outputs, Turn, marks, writes, mark, store, turn_at, take_turn, take_turns,
}
use dumbo_ms.Fin.Driver.Bits.{get_or-set_same, get_or-set_other}

-- Marks are not taken back.
set_keeps :
    (ms : List Bool) (i k : ℕ) → get_or ms k false ≡ true → get_or (set ms i true) k false ≡ true
set_keeps [] i k e = e
set_keeps (b ∷ ms) zero zero e = refl
set_keeps (b ∷ ms) zero (suc k) e = e
set_keeps (b ∷ ms) (suc i) zero e = e
set_keeps (b ∷ ms) (suc i) (suc k) e = set_keeps ms i k e

none_marked : (num k : ℕ) → get_or (replicate num false) k false ≡ true → ⊥
none_marked zero k e = ground arith
none_marked (suc num) zero e = ground arith
none_marked (suc num) (suc k) e = none_marked num k e

none_filled : (num k : ℕ) → get_or {A = Bytes} (replicate num []) k [] ≡ []
none_filled zero k = refl
none_filled (suc num) zero = refl
none_filled (suc num) (suc k) = none_filled num k

-- `t` is `s` with `out` counted and marked.
abbrev marked_in : RbcOut → Outputs → Outputs
marked_in out s = record s {
  outputs = set s.outputs (out.id - 1) true;
  donecount = s.donecount + 1;
  writing = some out;
}

mark-cases :
    (out : RbcOut) (s t : Outputs)
    → mark out s ≡ some t
    → (1 ≤ out.id) × (out.id ≤ length s.outputs) × (marked_in out s ≡ t)
unfolding mark
mark-cases out s t e = elim (Bool-cases (leb 1 out.id && leb out.id (length s.outputs))) [
  | inl inside ↦ (
    ground (arith, inside),
    ground (arith, inside),
    some-injective (marked_in out s) t (rw inside at e),
  )
  | inr outside ↦ absurd (none-ne-some t (rw outside at e))
]

mark-keeps :
    (out : RbcOut) (s t : Outputs) (k : ℕ)
    → mark out s ≡ some t
    → get_or s.outputs k false ≡ true
    → get_or t.outputs k false ≡ true
mark-keeps out s t k e before =
    subst (λ (u : Outputs). get_or u.outputs k false ≡ true) (mark-cases out s t e).2
      (set_keeps s.outputs (out.id - 1) k before)

abbrev turns_rest : ℕ → List Turn → Option Outputs → Option Outputs
turns_rest fault ts o = elim o [ none ↦ none | some u ↦ take_turns fault ts u ]

turn_at-keeps :
    (fault : ℕ) (t : Turn) (s u : Outputs) (o : Option RbcOut) (k : ℕ)
    → turn_at fault t s o ≡ some u
    → get_or s.outputs k false ≡ true
    → get_or u.outputs k false ≡ true
turn_at-keeps fault (marks out) s u none k e before = mark-keeps out s u k e before
turn_at-keeps fault (marks out) s u (some old) k e before = absurd (none-ne-some u e)
turn_at-keeps fault writes s u none k e before = absurd (none-ne-some u e)
turn_at-keeps fault writes s u (some out) k e before =
    subst (λ (v : Outputs). get_or v.outputs k false ≡ true)
      (some-injective (store fault out s) u e) before

pub take_turns-keeps :
    (fault : ℕ) (ts : List Turn) (s u : Outputs) (k : ℕ)
    → take_turns fault ts s ≡ some u
    → get_or s.outputs k false ≡ true
    → get_or u.outputs k false ≡ true
unfolding take_turns take_turn
take_turns-keeps fault [] s u k e before =
    subst (λ (v : Outputs). get_or v.outputs k false ≡ true) (some-injective s u e) before
take_turns-keeps fault (t ∷ ts) s u k e before = elim (Option-cases (take_turn fault t s)) [
  | inl ended ↦ absurd (none-ne-some u (sym (ap (turns_rest fault ts) ended) ∙ e))
  | inr (v, now) ↦
      take_turns-keeps fault ts v u k (sym (ap (turns_rest fault ts) now) ∙ e)
        (turn_at-keeps fault t s v s.writing k now before)
]

-- The outputs that the goroutine has got satisfy `P`.
module _ (P : RbcOut → Type 0) where
  -- The content at the place `k` is that of an output of its broadcast.
  abbrev pub Filled : Outputs → ℕ → Type 0
  Filled s k = (o : RbcOut) × P o × (o.id ≡ k + 1) × (get_or s.contents k [] ≡ o.value)

  -- The content at the place `k` is still to be written.
  abbrev pub Waiting : Outputs → ℕ → Type 0
  Waiting s k =
      (get_or s.contents k [] ≡ []) × ((o : RbcOut) × P o × (o.id ≡ k + 1) × (s.writing ≡ some o))

  pub record Sound (s : Outputs) : Type 0 where
    pub sizes : length s.outputs ≡ length s.contents
    pub backed : (k : ℕ) → get_or s.outputs k false ≡ true → Filled s k ⊎ Waiting s k
    pub empty : (k : ℕ) → get_or s.outputs k false ≡ false → get_or s.contents k [] ≡ []
    pub got :
        (o : RbcOut)
        → s.writing ≡ some o
        → P o × (1 ≤ o.id) × (o.id ≤ length s.outputs) × (get_or s.outputs (o.id - 1) false ≡ true)

  -- Between two rounds of the goroutine nothing waits.
  backed_idle : (s : Outputs) (k : ℕ) → s.writing ≡ none → Filled s k ⊎ Waiting s k → Filled s k
  backed_idle s k idle (inl f) = f
  backed_idle s k idle (inr w) = absurd (none-ne-some w.1.0 (sym idle ∙ w.1.3))

  marked_in-Sound :
      (out : RbcOut) (s : Outputs)
      → P out
      → 1 ≤ out.id
      → out.id ≤ length s.outputs
      → s.writing ≡ none
      → Sound s
      → Sound (marked_in out s)
  marked_in-Sound out s p low high idle h = record {
    sizes = length-set s.outputs (out.id - 1) true ∙ h.sizes;
    backed = λ k e. elim (Bool-cases (get_or s.outputs k false)) [
      | inl old ↦ inl (backed_idle s k idle (h.backed k old))
      | inr new ↦ elim (ℕ_discrete k (out.id - 1)) [
        | yes here ↦ inr (h.empty k new, (out, p, omega (arith, here, low), refl))
        | no there ↦
            let same = get_or-set_other s.outputs (out.id - 1) k true false there in
            absurd (ground (arith, sym same ∙ e, new))
      ]
    ];
    empty = λ k e. elim (Bool-cases (get_or s.outputs k false)) [
      | inl old ↦ absurd (ground (arith, set_keeps s.outputs (out.id - 1) k old, e))
      | inr new ↦ h.empty k new
    ];
    got = λ o e.
        subst
          (λ (q : RbcOut).
            P q
            × (1 ≤ q.id)
            × (q.id ≤ length (set s.outputs (out.id - 1) true))
            × (get_or (set s.outputs (out.id - 1) true) (q.id - 1) false ≡ true))
          (some-injective out o e)
          (
            p,
            low,
            omega (arith, high, length-set s.outputs (out.id - 1) true),
            get_or-set_same s.outputs (out.id - 1) true false (omega arith),
          );
  }

  store-Sound :
      (fault : ℕ) (out : RbcOut) (s : Outputs)
      → s.writing ≡ some out
      → Sound s
      → Sound (store fault out s)
  store-Sound fault out s due h = record {
    sizes = h.sizes ∙ sym (length-set s.contents (out.id - 1) out.value);
    backed = λ k e. elim (ℕ_discrete k (out.id - 1)) [
      | yes here ↦ inl (
        out,
        g.0,
        omega (arith, here, g.1),
        ap (λ j. get_or (set s.contents (out.id - 1) out.value) j []) here
            ∙ get_or-set_same s.contents (out.id - 1) out.value []
                (omega (arith, g.1, g.2, h.sizes)),
      )
      | no there ↦ elim (h.backed k e) [
        | inl (o, p, id, value) ↦
            inl (o, p, id, get_or-set_other s.contents (out.id - 1) k out.value [] there ∙ value)
        | inr w ↦ absurd (
            there (
              let same = ap (λ (o : RbcOut). o.id) (some-injective out w.1.0 (sym due ∙ w.1.3)) in
              omega (arith, same, w.1.2)))
      ]
    ];
    empty = λ k e. elim (ℕ_discrete k (out.id - 1)) [
      | yes here ↦
          absurd (
            let marked = ap (λ j. get_or s.outputs j false) here ∙ g.3 in ground (arith, marked, e))
      | no there ↦ get_or-set_other s.contents (out.id - 1) k out.value [] there ∙ h.empty k e
    ];
    got = λ o e. absurd (none-ne-some o e);
  }
    where
      g :
          P out
          × (1 ≤ out.id)
          × (out.id ≤ length s.outputs)
          × (get_or s.outputs (out.id - 1) false ≡ true)
      g = h.got out due

  turn_at-Sound :
      (fault : ℕ) (t : Turn) (s u : Outputs) (o : Option RbcOut)
      → ((out : RbcOut) → marks out ≡ t → P out)
      → s.writing ≡ o
      → turn_at fault t s o ≡ some u
      → Sound s
      → Sound u
  turn_at-Sound fault (marks out) s u none p idle e h =
      let m = mark-cases out s u e in
      subst Sound m.2 (marked_in-Sound out s (p out refl) m.0 m.1 idle h)
  turn_at-Sound fault (marks out) s u (some old) p idle e h = absurd (none-ne-some u e)
  turn_at-Sound fault writes s u none p idle e h = absurd (none-ne-some u e)
  turn_at-Sound fault writes s u (some out) p due e h =
      subst Sound (some-injective (store fault out s) u e) (store-Sound fault out s due h)

  pub take_turns-Sound :
      (fault : ℕ) (ts : List Turn) (s u : Outputs)
      → ((out : RbcOut) → Memᴰ (marks out) ts → P out)
      → take_turns fault ts s ≡ some u
      → Sound s
      → Sound u
  unfolding take_turns take_turn
  take_turns-Sound fault [] s u p e h = subst Sound (some-injective s u e) h
  take_turns-Sound fault (t ∷ ts) s u p e h = elim (Option-cases (take_turn fault t s)) [
    | inl ended ↦ absurd (none-ne-some u (sym (ap (turns_rest fault ts) ended) ∙ e))
    | inr (v, now) ↦
        take_turns-Sound fault ts v u (λ out m. p out (Memᴰ.tail m))
          (sym (ap (turns_rest fault ts) now) ∙ e)
          (turn_at-Sound fault t s v s.writing (λ out m. p out (Memᴰ.head m)) refl now h)
  ]

  pub new_outputs-Sound : (num : ℕ) → Sound (new_outputs num)
  unfolding new_outputs
  new_outputs-Sound num = record {
    sizes = length-replicate num false ∙ sym (length-replicate {A = Bytes} num []);
    backed = λ k e. absurd (none_marked num k e);
    empty = λ k e. none_filled num k;
    got = λ o e. absurd (none-ne-some o e);
  }
