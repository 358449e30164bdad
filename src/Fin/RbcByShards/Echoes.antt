-- ===== src/Fin/RbcByShards/Echoes.antt =====
-- A quorum of echoes of the shards of an honest leader, in any order.
use dumbo_ms.Prelude.{
  ℕ, zero, suc, ◌+◌, ◌-◌, ◌*◌, ◌≤◌, ◌≡◌, refl, sym, ap, ◌∙◌, arith, inl, inr, Bool, true, false,
  List, [], ◌∷◌, Option, none, some, ◌==◌, leb, if◌then◌else◌, length, get_or, set, replicate,
  length-replicate,
}
use dumbo_ms.Fin.Messages.{Bytes, bytes_equal_refl, RbcMsg}
use dumbo_ms.Fin.Merkle.{}
use dumbo_ms.Fin.ReedSolomon.{Coding}
use dumbo_ms.Fin.RbcByShards.{
  Instance, Follower, new_follower, stored, at_low, at_high, heard, on_path, handle_echo, echo_loop,
  start_output, puts_out,
}
use dumbo_ms.Fin.RbcByShards.Truthful.{known, Distinct, Truthful, AllTruthful, Untouched}
use dumbo_ms.Fin.RbcByShards.Stages.{
  Promises, Before, Low-Before, answer, with_echo, low-Low, high_waits, high_ends, Done,
}

module _ (coding : Coding) (c : Instance) (input root rest : Bytes) (shards : List Bytes) where
  pub handle-heard :
      (m : RbcMsg) (s : Follower)
      → Truthful c input root shards m
      → handle_echo coding c m s ≡ (
          let e = stored c.num (s.echomap root) m.id (get_or shards (m.id - 1) []) in
          at_high coding c root
            (at_low coding c root (length input) e (with_echo coding c input root rest shards s e)))
  unfolding handle_echo
  handle-heard m s t =
      let x = get_or shards (m.id - 1) [] in
      let e = stored c.num (s.echomap root) m.id x in
      let same : (m.round == c.height) ≡ true = ground (arith, t.now) in
      let low : leb 1 m.id ≡ true = ground (arith, t.above) in
      let high : leb m.id c.num ≡ true = ground (arith, t.below) in
      rw same (
        ap (on_path coding c m s) t.values
        ∙ ap (λ r. heard coding c r x m s) t.ends
        ∙ rw (low, high)
            (ap
              (λ n.
                at_high coding c root
                  (at_low coding c root n e (with_echo coding c input root rest shards s e)))
              t.len))

  abbrev pub loop_rest : List RbcMsg → Option Follower → Option Follower
  loop_rest ms o = elim o [ none ↦ none | some t ↦ echo_loop coding c ms t ]

  pub first_round :
      (m : RbcMsg) (ms : List RbcMsg) (s t : Follower)
      → s.echo_returned ≡ false
      → handle_echo coding c m s ≡ some t
      → echo_loop coding c (m ∷ ms) s ≡ echo_loop coding c ms t
  unfolding echo_loop
  first_round m ms s t active e =
      ap (λ b. if b then some s else loop_rest ms (handle_echo coding c m s)) active
      ∙ ap (loop_rest ms) e

  module _ (p : Promises coding c input root rest shards) where
    abbrev Ends : Option Follower → Type 0
    Ends o = (t : Follower) × (o ≡ some t) × Done coding c input root rest shards p t

    echoes_from :
        (ms : List RbcMsg) (m : RbcMsg) (n : ℕ) (s : Follower)
        → Before coding c input root rest shards n (m ∷ ms) s
        → AllTruthful c input root shards (m ∷ ms)
        → Distinct (m ∷ ms)
        → n + suc (length ms) ≡ c.threshold * 2 + 1
        → c.threshold * 2 + 1 ≤ c.num
        → Ends (echo_loop coding c (m ∷ ms) s)
    unfolding echo_loop
    echoes_from [] m n s b t d quorum few =
        let g = low-Low coding c input root rest shards p n m [] s b t.0 tt tt in
        let h = high_ends coding c input root rest shards p (suc n) [] g.0 g.2 (omega arith) in
        (
          h.0,
          first_round m [] s h.0 b.active
              (handle-heard m s t.0 ∙ ap (at_high coding c root) g.1 ∙ h.1),
          h.2,
        )
    echoes_from (m' ∷ ms) m n s b t d quorum few =
        let g = low-Low coding c input root rest shards p n m (m' ∷ ms) s b t.0 t.1 d.0 in
        let w =
          high_waits coding c input root rest shards p (suc n) (m' ∷ ms) g.0 g.2 (omega arith)
            (omega arith) in
        let r =
          echoes_from ms m' (suc n) g.0
            (Low-Before coding c input root rest shards (suc n) (m' ∷ ms) g.0 g.2) t.1 d.1
            (omega arith) few in
        (
          r.0,
          first_round m (m' ∷ ms) s g.0 b.active
                (handle-heard m s t.0 ∙ ap (at_high coding c root) g.1 ∙ w)
              ∙ r.1,
          r.2,
        )

    no_shards : (n : ℕ) → known (replicate n []) ≡ 0
    no_shards zero = refl
    no_shards (suc n) = no_shards n

    no_shard : (n j : ℕ) → get_or {A = Bytes} (replicate n []) j [] ≡ []
    no_shard zero j = refl
    no_shard (suc n) zero = refl
    no_shard (suc n) (suc j) = no_shard n j

    untouched : (n : ℕ) (ms : List RbcMsg) → Untouched (replicate n []) ms
    untouched n [] = tt
    untouched n (m ∷ ms) = (no_shard n (m.id - 1), untouched n ms)

    pub at_first : (ms : List RbcMsg) → Before coding c input root rest shards 0 ms new_follower
    at_first ms = record {
      given = replicate c.num [];
      stores = λ id shard.
          ap
            (λ v. record {
              count = 1;
              shards = set (replicate c.num []) (id - 1) shard;
              rootvalid = v;
            })
            (ground arith);
      partial = (length-replicate {A = Bytes} c.num [] ∙ sym p.sizes, λ j. inl (no_shard c.num j));
      fresh = inr (no_shards c.num, untouched c.num ms);
      cands =
          let not_yet : leb (c.threshold + 1) 0 ≡ false = ground arith in
          ap (λ (v : Bool). if v then answer coding c input root rest shards ∷ [] else [])
            (sym not_yet);
      quiet = refl;
      active = refl;
      counted = refl;
    }

    start_output-answer :
        (t : Follower) (roots : List Bytes)
        → t.candidates ≡ answer coding c input root rest shards ∷ []
        → start_output (record t { outputsignal = root ∷ roots }) ≡ puts_out input
    unfolding start_output
    start_output-answer t roots e =
        let same = bytes_equal_refl root in
        ap (λ cs. start_output (record t { outputsignal = root ∷ roots; candidates = cs })) e
        ∙ rw same refl

    -- With the promises of the libraries, a quorum of echoes from different senders of the shards
    -- that the leader has made of its input makes a follower rebuild the input as the one candidate
    -- and signal that it is ready for its root, whatever the order of the echoes; where that root is
    -- the first one to be put out, Start puts out the input.
    pub echo_loop-quorum :
        (m : RbcMsg) (ms : List RbcMsg) (roots : List Bytes)
        → AllTruthful c input root shards (m ∷ ms)
        → Distinct (m ∷ ms)
        → suc (length ms) ≡ c.threshold * 2 + 1
        → c.threshold * 2 + 1 ≤ c.num
        → (t : Follower) × (echo_loop coding c (m ∷ ms) new_follower ≡ some t)
          × (t.candidates ≡ record { root = root; output = input } ∷ [])
          × (t.readysignal ≡ root ∷ [])
          × (start_output (record t { outputsignal = root ∷ roots }) ≡ puts_out input)
    echo_loop-quorum m ms roots t d quorum few =
        let r = echoes_from ms m 0 new_follower (at_first (m ∷ ms)) t d (omega arith) few in
        (r.0, r.1, r.2.0, r.2.1, start_output-answer r.0 roots r.2.0)
