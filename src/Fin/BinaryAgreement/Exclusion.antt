-- ===== src/Fin/BinaryAgreement/Exclusion.antt =====
-- Conf messages: two nodes never have quorums for different single values.
use mathlib.Core.Option.{some-injective, none-ne-some}
use dumbo_ms.Prelude.{
  ℕ, suc, ◌+◌, ◌*◌, ◌≤◌, ◌<◌, arith, ◌≡◌, sym, ap, subst, ◌∙◌, inl, inr, Bool, true, false, ◌&&◌,
  not, List, [], ◌∷◌, Option, none, some, get_elem?, ◌==◌, Bool-cases, Option-cases, if◌then◌else◌,
}
use dumbo_ms.Fin.Quorum.{total, quorums_meet}
use dumbo_ms.Fin.Messages.{BaMsg}
use dumbo_ms.Fin.Senders.{passing, passing_of, InRange, passing-total}
use dumbo_ms.Fin.BinaryAgreement.{Agreement, new_ba}
use dumbo_ms.Fin.BinaryAgreement.Finish.{sender, any}
use dumbo_ms.Fin.BinaryAgreement.Handlers.{
  Quorums, new_quorums, conf_case, conf_entries, handle_conf, conf_loop,
}

abbrev is_entry : Option Bool → Bool → Bool
is_entry none b = false
is_entry (some a) b = if b then a else not a

-- A conf message of the loop for the one value b.
abbrev pub for_single : ℕ → Bool → BaMsg → Bool
for_single loop b m =
    (m.loop == loop)
    && is_entry (get_elem? m.conf_value 0) (not b)
    && is_entry (get_elem? m.conf_value 1) b

abbrev pub count_of : Bool → Quorums → ℕ
count_of b s = if b then s.count1 else s.count0

abbrev pub ready_of : Bool → Quorums → ℕ
ready_of b s = if b then s.ready1 else s.ready0

module _ (c : Agreement) (loop : ℕ) where
  -- A signal is sent at the quorum, and every count is of a message.
  abbrev Backed : Bool → ℕ → Quorums → Type 0
  Backed b n s = (count_of b s ≤ n) × (0 < ready_of b s → c.faults * 2 + 1 ≤ count_of b s)

  conf_case-Backed :
      (x y b : Bool) (n : ℕ) (s : Quorums)
      → Backed b n s
      → Backed b
          ((if is_entry (some x) (not b) && is_entry (some y) b then 1 else 0) + n)
          (conf_case c x y s)
  unfolding conf_case
  conf_case-Backed x y b n s h = (grind arith, λ l. grind arith)

  conf_entries-Backed :
      (x y : Option Bool) (b : Bool) (n : ℕ) (s t : Quorums)
      → conf_entries c x y s ≡ some t
      → Backed b n s
      → Backed b ((if is_entry x (not b) && is_entry y b then 1 else 0) + n) t
  conf_entries-Backed none y b n s t e h = absurd (none-ne-some t e)
  conf_entries-Backed (some x) none b n s t e h = absurd (none-ne-some t e)
  conf_entries-Backed (some x) (some y) b n s t e h =
      subst (Backed b ((if is_entry (some x) (not b) && is_entry (some y) b then 1 else 0) + n))
        (some-injective (conf_case c x y s) t e) (conf_case-Backed x y b n s h)

  handle_conf-Backed :
      (m : BaMsg) (b : Bool) (n : ℕ) (s t : Quorums)
      → handle_conf c loop m s ≡ some t
      → Backed b n s
      → Backed b ((if for_single loop b m then 1 else 0) + n) t
  unfolding handle_conf
  handle_conf-Backed m b n s t e h = elim (Bool-cases (m.loop == loop)) [
    | inl k ↦ rw k (
        conf_entries-Backed (get_elem? m.conf_value 0) (get_elem? m.conf_value 1) b n s t
          (sym (ap choose k) ∙ e) h)
    | inr k ↦
        rw k
          (subst (Backed b (0 + n)) (some-injective s t (sym (ap choose k) ∙ e)) (grind arith, h.1))
  ]
    where
      choose : Bool → Option Quorums
      choose b =
          if b
          then conf_entries c (get_elem? m.conf_value 0) (get_elem? m.conf_value 1) s
          else some s

  more_step :
      (b : Bool) (n : ℕ) (m : BaMsg) (ms : List BaMsg)
      → passing sender (for_single loop b) ms + ((if for_single loop b m then 1 else 0) + n)
        ≡ passing sender (for_single loop b) (m ∷ ms) + n
  more_step b n m ms = grind arith

  conf_loop-Backed :
      (ms : List BaMsg) (b : Bool) (n : ℕ) (s t : Quorums)
      → conf_loop c loop ms s ≡ some t
      → Backed b n s
      → Backed b (passing sender (for_single loop b) ms + n) t
  unfolding conf_loop
  conf_loop-Backed [] b n s t e h =
      let k = subst (Backed b n) (some-injective s t e) h in (let l = k.0 in omega arith, k.1)
  conf_loop-Backed (m ∷ ms) b n s t e h = elim (Option-cases (handle_conf c loop m s)) [
    | inl k ↦ absurd (none-ne-some t (sym (ap go_on k) ∙ e))
    | inr p ↦
        subst (λ k. Backed b k t) (more_step b n m ms)
          (conf_loop-Backed ms b ((if for_single loop b m then 1 else 0) + n) p.0 t
            (sym (ap go_on p.1) ∙ e) (handle_conf-Backed m b n s p.0 p.1 h))
  ]
    where
      go_on : Option Quorums → Option Quorums
      go_on o = elim o [ none ↦ none | some u ↦ conf_loop c loop ms u ]

passing_of_le :
    (loop : ℕ) (b : Bool) (j : ℕ) (ms : List BaMsg)
    → passing_of sender (for_single loop b) j ms ≤ passing_of sender any j ms
passing_of_le loop b j [] = omega arith
passing_of_le loop b j (m ∷ ms) = let rest = passing_of_le loop b j ms in grind arith

none_yet : (c : Agreement) (loop : ℕ) (b : Bool) → Backed c loop b 0 new_quorums
none_yet c loop true = (omega arith, λ l. absurd (omega arith))
none_yet c loop false = (omega arith, λ l. absurd (omega arith))

-- A signal for one value has a quorum of conf messages for it among the nodes.
quorum_for :
    (f id mvbaround baround loop : ℕ) (ms : List BaMsg) (b : Bool) (t : Quorums)
    → InRange sender (3 * f + 1) ms
    → conf_loop (new_ba (3 * f + 1) id mvbaround baround) loop ms new_quorums ≡ some t
    → 0 < ready_of b t
    → 2 * f + 1 ≤ total (λ j. passing_of sender (for_single loop b) (suc j) ms) (3 * f + 1)
unfolding new_ba
quorum_for f id mvbaround baround loop ms b t range e l =
    let c = new_ba (3 * f + 1) id mvbaround baround in
    let backed = conf_loop-Backed c loop ms b 0 new_quorums t e (none_yet c loop b) in
    let few = backed.0 in
    let full = backed.1 l in
    let sum = passing-total sender (for_single loop b) (3 * f + 1) ms range in omega arith

-- Of 3f + 1 nodes at most f are faulty, no node's conf handler hears a sender twice, and an honest
-- sender does not tell one node the single value a and another the single value b unless a is b:
-- then the single values for which two handlers signal a quorum are equal.
pub conf_loop-agree :
    (f id id' mvbaround baround loop : ℕ) (honest : ℕ → Bool) (ms ns : List BaMsg) (a b : Bool)
    (s t : Quorums)
    → total (λ j. if honest (suc j) then 0 else 1) (3 * f + 1) ≤ f
    → InRange sender (3 * f + 1) ms
    → InRange sender (3 * f + 1) ns
    → ((j : ℕ) → passing_of sender any j ms ≤ 1)
    → ((j : ℕ) → passing_of sender any j ns ≤ 1)
    → ((j : ℕ) (u v : Bool)
        → honest j ≡ true
        → 0 < passing_of sender (for_single loop u) j ms
        → 0 < passing_of sender (for_single loop v) j ns
        → u ≡ v)
    → conf_loop (new_ba (3 * f + 1) id mvbaround baround) loop ms new_quorums ≡ some s
    → conf_loop (new_ba (3 * f + 1) id' mvbaround baround) loop ns new_quorums ≡ some t
    → 0 < ready_of a s
    → 0 < ready_of b t
    → a ≡ b
conf_loop-agree f id id' mvbaround baround loop honest ms ns a b s t few in_ms in_ns one_ms one_ns
      truly e d p l =
    let (k, below, for_a, for_b, real) =
      quorums_meet (λ j. passing_of sender (for_single loop a) (suc j) ms)
        (λ j. passing_of sender (for_single loop b) (suc j) ns)
        (λ j. if honest (suc j) then 0 else 1) (3 * f + 1) f (omega arith) few
        (quorum_for f id mvbaround baround loop ms a s in_ms e p)
        (quorum_for f id' mvbaround baround loop ns b t in_ns d l)
        (λ j. let m = passing_of_le loop a (suc j) ms in let n = one_ms (suc j) in omega arith)
        (λ j. let m = passing_of_le loop b (suc j) ns in let n = one_ns (suc j) in omega arith) in
    truly (suc k) a b (not_faulty k real) for_a for_b
  where
    not_faulty : (k : ℕ) → ◌≡◌ {A = ℕ} (if honest (suc k) then 0 else 1) 0 → honest (suc k) ≡ true
    not_faulty k e = grind arith
