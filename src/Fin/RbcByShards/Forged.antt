-- ===== src/Fin/RbcByShards/Forged.antt =====
-- An echo with a forged shard under the root of an honest leader.
use mathlib.Core.Option.{}
use dumbo_ms.Prelude.{
  ℕ, suc, ◌+◌, ◌-◌, ◌≤◌, ◌<◌, ◌≡◌, ◌≢◌, refl, ap, ◌∙◌, subst, arith, inl, inr, Bool-cases,
  Option-cases, true, List, [], ◌∷◌, ◌++◌, Option, none, some, ◌==◌, leb, if◌then◌else◌, length,
  get_or, set,
}
use dumbo_ms.Fin.Messages.{Bytes, bytes_equal, bytes_equal-true, RbcMsg}
use dumbo_ms.Fin.Driver.Bits.{get_or-set_same}
use dumbo_ms.Fin.Merkle.{root_of}
use dumbo_ms.Fin.ReedSolomon.{Coding, reconstruct, collect, collected}
use dumbo_ms.Fin.RbcByShards.{
  Instance, EchoBuf, Follower, new_follower, checked, rebuilt, at_low, at_high, heard, on_path,
  handle_echo, echo_loop,
}
use dumbo_ms.Fin.RbcByShards.Truthful.{Distinct, AllTruthful}
use dumbo_ms.Fin.RbcByShards.Stages.{Promises, Before, Low-Before, with_echo, low-Low, high_waits}
use dumbo_ms.Fin.RbcByShards.Echoes.{handle-heard, first_round, loop_rest, at_first}

-- An echo with a shard `x` under the root.
pub record Forgery (c : Instance) (root x : Bytes) (m : RbcMsg) : Type 0 where
  pub now : m.round ≡ c.height
  pub above : 1 ≤ m.id
  pub below : m.id ≤ c.num
  pub path : List Bytes
  pub values : m.values ≡ x ∷ path
  pub ends : root_of (x ∷ path) ≡ root

module _ (coding : Coding) (c : Instance) (input root rest : Bytes) (shards : List Bytes)
    (p : Promises coding c input root rest shards) where
  early_from :
      (ms more : List RbcMsg) (n : ℕ) (s : Follower)
      → Before coding c input root rest shards n ms s
      → AllTruthful c input root shards ms
      → Distinct ms
      → n + length ms ≤ c.threshold
      → c.threshold < c.num
      → (u : Follower) × (echo_loop coding c (ms ++ more) s ≡ echo_loop coding c more u)
        × Before coding c input root rest shards (n + length ms) [] u
  early_from [] more n s b t d early few =
      let same : n ≡ n + 0 = omega arith in
      (s, refl, subst (λ k. Before coding c input root rest shards k [] s) same b)
  early_from (m ∷ ms) more n s b t d early few =
      let g = low-Low coding c input root rest shards p n m ms s b t.0 t.1 d.0 in
      let w =
        high_waits coding c input root rest shards p (suc n) ms g.0 g.2 (omega arith)
          (omega arith) in
      let r =
        early_from ms more (suc n) g.0
          (Low-Before coding c input root rest shards (suc n) ms g.0 g.2) t.1 d.1 (omega arith)
          few in
      let same : suc n + length ms ≡ n + suc (length ms) = omega arith in
      (
        r.0,
        first_round coding c input root rest shards m (ms ++ more) s g.0 b.active (
              handle-heard coding c input root rest shards m s t.0
              ∙ ap (at_high coding c root) g.1
              ∙ w)
            ∙ r.1,
        subst (λ k. Before coding c input root rest shards k [] r.0) same r.2,
      )

  -- Shards with `x` at the place of the sender do not rebuild to shards under the root.
  abbrev pub Detected : ℕ → Bytes → Type 0
  Detected id x =
      (given full : List Bytes)
      → get_or given (id - 1) [] ≡ x
      → coding.rebuild (c.threshold + 1) c.num given ≡ some full
      → coding.merkle_root full ≢ some root

  checked_ends :
      (e : EchoBuf) (cand : Bytes) (full : List Bytes) (s : Follower) (o : Option Bytes)
      → o ≢ some root
      → checked coding c root e cand full s o ≡ none
  checked_ends e cand full s none h = refl
  checked_ends e cand full s (some r) h = elim (Bool-cases (bytes_equal r root)) [
    | inl same ↦ absurd (h (ap some (bytes_equal-true r root same)))
    | inr other ↦ rw other refl
  ]

  rebuilt_ends :
      (e : EchoBuf) (s : Follower) (msglen : ℕ) (o : Option (List Bytes))
      → ((full : List Bytes) → o ≡ some full → coding.merkle_root full ≢ some root)
      → rebuilt coding c root e s (collected msglen o) ≡ none
  rebuilt_ends e s msglen none h = refl
  rebuilt_ends e s msglen (some full) h = elim (Option-cases (collect full msglen msglen [])) [
    | inl short ↦ ap with_out short
    | inr (out, long) ↦
        ap with_out long ∙ checked_ends e out full s (coding.merkle_root full) (h full refl)
  ]
    where
      with_out : Option Bytes → Option Follower
      with_out o = rebuilt coding c root e s (elim o [ none ↦ none | some out ↦ some (out, full) ])

  forged_ends :
      (m : RbcMsg) (x : Bytes) (u : Follower)
      → Before coding c input root rest shards c.threshold [] u
      → Forgery c root x m
      → Detected m.id x
      → handle_echo coding c m u ≡ none
  unfolding handle_echo at_low reconstruct
  forged_ends m x u b f detected =
      let e : EchoBuf = record {
        count = suc c.threshold;
        shards = set b.given (m.id - 1) x;
        rootvalid = leb (c.threshold + 1) c.threshold;
      } in
      let same : (m.round == c.height) ≡ true = ground (arith, f.now) in
      let low : leb 1 m.id ≡ true = ground (arith, f.above) in
      let high : leb m.id c.num ≡ true = ground (arith, f.below) in
      let here : (suc c.threshold == c.threshold + 1) ≡ true = ground arith in
      let inside : m.id - 1 < length b.given =
        omega (arith, b.partial.0, p.sizes, f.above, f.below) in
      let fails : at_low coding c root m.msglen e (with_echo coding c input root rest shards u e)
          ≡ none =
        rw here (
          rebuilt_ends e (with_echo coding c input root rest shards u e) m.msglen
            (coding.rebuild (c.threshold + 1) c.num e.shards)
            (λ full k.
              detected e.shards full (get_or-set_same b.given (m.id - 1) x [] inside) k)) in
      rw same (
        ap (on_path coding c m u) f.values
        ∙ ap (λ r. heard coding c r x m u) f.ends
        ∙ rw (low, high)
            (ap
                (λ e'. at_high coding c root (
                  at_low coding c root m.msglen e'
                    (with_echo coding c input root rest shards u e')))
                (b.stores m.id x)
              ∙ ap (at_high coding c root) fails))

  -- The threshold of true echoes of the shards of an honest leader, and then one forged echo under
  -- its root, end the program of a follower, where shards with the forged one at the place of its
  -- sender are rebuilt to none or only to shards with another root.
  pub echo_loop-forged :
      (ms more : List RbcMsg) (m : RbcMsg) (x : Bytes)
      → AllTruthful c input root shards ms
      → Distinct ms
      → length ms ≡ c.threshold
      → c.threshold < c.num
      → Forgery c root x m
      → Detected m.id x
      → echo_loop coding c (ms ++ (m ∷ more)) new_follower ≡ none
  unfolding echo_loop
  echo_loop-forged ms more m x t d count few f detected =
      let r =
        early_from ms (m ∷ more) 0 new_follower (at_first coding c input root rest shards p ms) t d
          (omega arith) few in
      let all : 0 + length ms ≡ c.threshold = omega arith in
      let b = subst (λ k. Before coding c input root rest shards k [] r.0) all r.2 in
      r.1
      ∙ ap
          (λ v.
            if v
            then some r.0
            else loop_rest coding c input root rest shards more (handle_echo coding c m r.0))
          b.active
      ∙ ap (loop_rest coding c input root rest shards more) (forged_ends m x r.0 b f detected)
