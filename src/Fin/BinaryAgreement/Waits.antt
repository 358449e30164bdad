-- ===== src/Fin/BinaryAgreement/Waits.antt =====
-- What `Launch` waits for, before its conf message and before the coin.
use dumbo_ms.Prelude.{
  ◌≡◌, refl, sym, ◌∙◌, inl, inr, Bool, true, false, ◌&&◌, ◌||◌, List, [], ◌∷◌, Bool-cases, arith,
}
use dumbo_ms.Fin.BinaryAgreement.{
  Flags, Signal, value0ready, value1ready, aux0ready, aux1ready, auxmixready, no_flags, set_flag,
  ready_on, wait,
}

-- The flags that a sequence of signals sets, in any order.
abbrev pub after : List Signal → Flags → Flags
after [] s = s
after (e ∷ es) s = after es (set_flag e s)

-- Enough has come: a ready value with a quorum for it, or both values with a mixed quorum.
abbrev pub enough : Flags → Bool
enough s = (s.v0 && s.a0) || (s.v1 && s.a1) || (s.v0 && s.v1 && s.amix)

-- The test of one case is the whole condition, where it did not hold before.
ready_on-enough : (e : Signal) (s : Flags) → enough s ≡ false → ready_on e s ≡ enough (set_flag e s)
unfolding ready_on
ready_on-enough value0ready s h = ground arith
ready_on-enough value1ready s h = ground arith
ready_on-enough aux0ready s h = ground arith
ready_on-enough aux1ready s h = ground arith
ready_on-enough auxmixready s h = ground arith

enough-set_flag : (e : Signal) (s : Flags) → enough s ≡ true → enough (set_flag e s) ≡ true
enough-set_flag value0ready s h = ground arith
enough-set_flag value1ready s h = ground arith
enough-set_flag aux0ready s h = ground arith
enough-set_flag aux1ready s h = ground arith
enough-set_flag auxmixready s h = ground arith

enough-after : (es : List Signal) (s : Flags) → enough s ≡ true → enough (after es s) ≡ true
enough-after [] s h = h
enough-after (e ∷ es) s h = enough-after es (set_flag e s) (enough-set_flag e s h)

wait-from : (es : List Signal) (s : Flags) → enough s ≡ false → wait es s ≡ enough (after es s)
unfolding wait
wait-from [] s h = sym h
wait-from (e ∷ es) s h = elim (Bool-cases (ready_on e s)) [
  | inl k ↦ rw k (sym (enough-after es (set_flag e s) (sym (ready_on-enough e s h) ∙ k)))
  | inr k ↦ rw k (wait-from es (set_flag e s) (sym (ready_on-enough e s h) ∙ k))
]

-- The loop ends on a sequence of signals just when, in whatever order they come, they are enough.
pub wait-enough : (es : List Signal) → wait es no_flags ≡ enough (after es no_flags)
wait-enough es = wait-from es no_flags refl
