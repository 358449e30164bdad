-- ===== src/Fin/Driver/Blocks.antt =====
-- The blocks that Run builds, and the reliable broadcasts that it has heard of.
use mathlib.Core.List.{Memᴰ}
use mathlib.Core.List.Memᴰ
use mathlib.Core.Option.{none-ne-some}
use dumbo_ms.Prelude.{
  ℕ, zero, suc, ◌+◌, ◌≡◌, refl, ap, ◌∙◌, subst, arith, inl, inr, ◌⊎◌, Bool, true, false, not, ◌&&◌,
  List, [], ◌∷◌, ◌++◌, none, some, get_or, if◌then◌else◌,
}
use dumbo_ms.Fin.Messages.{Bytes}
use dumbo_ms.Fin.Driver.{
  Outputs, RbcOut, new_outputs, Turn, marks, take_turns, is_valid, wait_loop, wait_rbc_done,
  payload_loop, block_payload, byte_array_to_bool_array,
}
use dumbo_ms.Fin.Driver.Turns.{Sound, new_outputs-Sound, take_turns-Sound, take_turns-keeps}

passed : (b m rest : Bool) → (if b && not m then false else rest) ≡ true → rest ≡ true
passed true true rest h = h
passed true false rest h = ground arith
passed false m rest h = h

marked : (m rest : Bool) → (if true && not m then false else rest) ≡ true → m ≡ true
marked true rest h = refl
marked false rest h = ground arith

-- What a pass accepts is marked.
is_valid-covers :
    (result mine : List Bool) (i k : ℕ)
    → is_valid result mine i ≡ true
    → get_or result k false ≡ true
    → get_or mine (i + k) false ≡ true
unfolding is_valid
is_valid-covers [] mine i k h e = ground arith
is_valid-covers (true ∷ result) mine i zero h e =
    let place : i ≡ i + 0 = omega arith in
    subst (λ p. get_or mine p false ≡ true) place
      (marked (get_or mine i false) (is_valid result mine (i + 1)) h)
is_valid-covers (false ∷ result) mine i zero h e = ground arith
is_valid-covers (b ∷ result) mine i (suc k) h e =
    let place : i + 1 + k ≡ i + suc k = omega arith in
    subst (λ p. get_or mine p false ≡ true) place
      (is_valid-covers result mine (i + 1) k
        (passed b (get_or mine i false) (is_valid result mine (i + 1)) h) e)

-- The payload has what it began with, and contents of entries that are true.
abbrev Chosen : List Bool → ℕ → (ℕ → List Bytes) → Bytes → Type 0
Chosen bs i contents v =
    (k : ℕ) × (get_or bs k false ≡ true) × (v ≡ get_or (contents (i + k)) (i + k) [])

later :
    (b : Bool) (bs : List Bool) (i : ℕ) (contents : ℕ → List Bytes) (v : Bytes)
    → Chosen bs (i + 1) contents v
    → Chosen (b ∷ bs) i contents v
later b bs i contents v (k, e, h) =
    let place : i + 1 + k ≡ i + suc k = omega arith in
    (suc k, e, h ∙ ap (λ p. get_or (contents p) p []) place)

payload_loop-entry :
    (bs : List Bool) (i : ℕ) (contents : ℕ → List Bytes) (acc : List Bytes) (v : Bytes)
    → Memᴰ v (payload_loop bs i contents acc)
    → Memᴰ v acc ⊎ Chosen bs i contents v
unfolding payload_loop
payload_loop-entry [] i contents acc v m = inl m
payload_loop-entry (true ∷ bs) i contents acc v m =
    elim (payload_loop-entry bs (i + 1) contents (acc ++ (get_or (contents i) i [] ∷ [])) v m) [
      | inl before ↦ elim (Memᴰ.append_cases acc before) [
        | inl old ↦ inl old
        | inr (Memᴰ.head e) ↦
            let place : i ≡ i + 0 = omega arith in
            inr (0, refl, e ∙ ap (λ p. get_or (contents p) p []) place)
        | inr (Memᴰ.tail none_left) ↦ elim none_left [ ]
      ]
      | inr chosen ↦ inr (later true bs i contents v chosen)
    ]
payload_loop-entry (false ∷ bs) i contents acc v m =
    elim (payload_loop-entry bs (i + 1) contents acc v m) [
      | inl before ↦ inl before
      | inr chosen ↦ inr (later false bs i contents v chosen)
    ]

accepted : (b : Bool) → (if b then some true else none) ≡ some true → b ≡ true
accepted true e = refl
accepted false e = absurd (none-ne-some true e)

waited :
    (result mine : List Bool)
    → wait_loop result (mine ∷ []) ≡ some true
    → is_valid result mine 0 ≡ true
unfolding wait_loop
waited result mine e = accepted (is_valid result mine 0) e

-- The waiting loop has accepted the output on the marks of `s`, and the round i of the loop of the
-- block finds the state `at i`, to which some turns of the goroutine lead. Then every payload is,
-- for a broadcast that the output takes, the value of an output of it that the goroutine has got;
-- or it is empty, and the goroutine has marked such an output and not written its content yet.
pub block_payload-heard :
    (fault num : ℕ) (before : List Turn) (after : ℕ → List Turn) (output : Bytes) (s : Outputs)
    (at : ℕ → Outputs) (v : Bytes)
    → take_turns fault before (new_outputs num) ≡ some s
    → wait_rbc_done output num (s.outputs ∷ []) ≡ some true
    → ((i : ℕ) → take_turns fault (after i) s ≡ some (at i))
    → Memᴰ v (block_payload output num (λ i. (at i).contents))
    → (i : ℕ) × (get_or (byte_array_to_bool_array output num) i false ≡ true)
      × (o : RbcOut) × Memᴰ (marks o) (before ++ after i)
      × (o.id ≡ i + 1)
      × ((v ≡ o.value) ⊎ ((v ≡ []) × ((at i).writing ≡ some o)))
unfolding wait_rbc_done block_payload
block_payload-heard fault num before after output s at v first covered then_at m =
    elim (payload_loop-entry (byte_array_to_bool_array output num) 0 (λ i. (at i).contents) [] v
      m) [
        | inl none_yet ↦ elim none_yet [ ]
        | inr (k, chosen, value) ↦
            let place : 0 + k ≡ k = omega arith in
            let found = value ∙ ap (λ p. get_or (at p).contents p []) place in
            let was_marked =
              subst (λ p. get_or s.outputs p false ≡ true) place
                (is_valid-covers (byte_array_to_bool_array output num) s.outputs 0 k
                  (waited (byte_array_to_bool_array output num) s.outputs covered) chosen) in
            let sound = at-Sound k in
            elim (sound.backed k
              (take_turns-keeps fault (after k) s (at k) k (then_at k) was_marked)) [
                | inl (o, p, id, content) ↦ (k, chosen, o, p, id, inl (found ∙ content))
                | inr (content, (o, p, id, writing)) ↦
                    (k, chosen, o, p, id, inr (found ∙ content, writing))
              ]
      ]
  where
    at-Sound : (i : ℕ) → Sound (λ o. Memᴰ (marks o) (before ++ after i)) (at i)
    at-Sound i =
        let heard : RbcOut → Type 0 = λ o. Memᴰ (marks o) (before ++ after i) in
        take_turns-Sound heard fault (after i) s (at i) (λ o k. Memᴰ.append_right before k)
          (then_at i)
          (take_turns-Sound heard fault before (new_outputs num) s
            (λ o k. Memᴰ.append_left (after i) k) first (new_outputs-Sound heard num))
