-- ===== src/Fin/RbcByShards/Stages.antt =====
-- The echo handler round by round, while it hears echoes of the shards of an honest leader.
use dumbo_ms.Prelude.{
  ℕ, suc, ◌+◌, ◌-◌, ◌*◌, ◌≤◌, ◌<◌, ◌≡◌, ◌≢◌, refl, sym, ap, ◌∙◌, subst, arith, inl, inr, ◌⊎◌,
  Bool-cases, Bool, true, false, List, [], ◌∷◌, ◌++◌, none, some, ◌==◌, leb, if◌then◌else◌, length,
  get_or, set, ℕ_discrete,
}
use dumbo_ms.Fin.Messages.{Bytes, bytes_equal_refl, RbcMsg}
use dumbo_ms.Fin.ReedSolomon.{Coding, reconstruct, collected}
use dumbo_ms.Fin.ReedSolomon.Prefix.{AllFilled, joined, collect-message}
use dumbo_ms.Fin.RbcByShards.{
  Instance, EchoBuf, put_buf, Candidate, Follower, stored, checked, rebuilt, at_low, valid_at,
  ended, at_high,
}
use dumbo_ms.Fin.RbcByShards.Truthful.{
  known, Partial, known-set, Partial-set, filled_at, put_buf-same, Untouched, Others, Truthful,
  AllTruthful, Untouched-set,
}

module _ (coding : Coding) (c : Instance) (input root rest : Bytes) (shards : List Bytes) where
  -- What the leader's shards and the libraries promise.
  pub record Promises : Type 0 where
    pub sizes : length shards ≡ c.num
    pub filled : AllFilled shards
    pub begins : joined shards ≡ input ++ rest
    pub roots : coding.merkle_root shards ≡ some root
    pub rebuilds :
        (given : List Bytes)
        → Partial given shards
        → c.threshold + 1 ≤ known given
        → coding.rebuild (c.threshold + 1) c.num given ≡ some shards

  abbrev pub answer : Candidate
  answer = record { root = root; output = input }

  abbrev pub once : ℕ → List Candidate
  once n = if leb (c.threshold + 1) n then answer ∷ [] else []

  -- Before an echo: `n` echoes were heard, and those of `ms` are to come.
  pub record Before (n : ℕ) (ms : List RbcMsg) (s : Follower) : Type 0 where
    pub given : List Bytes
    pub stores :
        (id : ℕ) (shard : Bytes)
        → stored c.num (s.echomap root) id shard ≡ record {
          count = suc n;
          shards = set given (id - 1) shard;
          rootvalid = leb (c.threshold + 1) n;
        }
    pub partial : Partial given shards
    pub fresh : (leb (c.threshold + 1) n ≡ true) ⊎ ((known given ≡ n) × Untouched given ms)
    pub cands : s.candidates ≡ once n
    pub quiet : s.readysignal ≡ []
    pub active : s.echo_returned ≡ false
    pub counted : s.echocount ≡ n

  -- After the first of the two tests.
  pub record Low (n : ℕ) (ms : List RbcMsg) (u : Follower) : Type 0 where
    pub given : List Bytes
    pub entry :
        u.echomap root
        ≡ some (record { count = n; shards = given; rootvalid = leb (c.threshold + 1) n })
    pub partial : Partial given shards
    pub fresh : (leb (c.threshold + 1) n ≡ true) ⊎ ((known given ≡ n) × Untouched given ms)
    pub cands : u.candidates ≡ once n
    pub quiet : u.readysignal ≡ []
    pub active : u.echo_returned ≡ false
    pub counted : u.echocount ≡ n

  pub Low-Before : (n : ℕ) (ms : List RbcMsg) (u : Follower) → Low n ms u → Before n ms u
  Low-Before n ms u l = record {
    given = l.given;
    stores = λ id shard.
        ap (λ o. stored c.num o id shard) l.entry
        ∙ ap
            (λ k. record {
              count = k;
              shards = set l.given (id - 1) shard;
              rootvalid = leb (c.threshold + 1) n;
            })
            (omega arith);
    partial = l.partial;
    fresh = l.fresh;
    cands = l.cands;
    quiet = l.quiet;
    active = l.active;
    counted = l.counted;
  }

  -- With an echo stored.
  abbrev pub with_echo : Follower → EchoBuf → Follower
  with_echo s e = record s { echomap = put_buf s.echomap root e; echocount = s.echocount + 1 }

  module _ (p : Promises) where
    reconstruct-all :
        (given : List Bytes)
        → Partial given shards
        → c.threshold + 1 ≤ known given
        → reconstruct coding (c.threshold + 1) c.num given (length input) ≡ some (input, shards)
    unfolding reconstruct
    reconstruct-all given part enough =
        ap (collected (length input)) (p.rebuilds given part enough)
        ∙ ap (λ o. elim o [ none ↦ none | some out ↦ some (out, shards) ])
            (collect-message shards input rest p.filled p.begins)

    abbrev pub Goes : ℕ → List RbcMsg → Follower → EchoBuf → Type 0
    Goes n ms s e =
        (u : Follower) × (at_low coding c root (length input) e (with_echo s e) ≡ some u)
        × Low n ms u

    abbrev next : ℕ → List Bytes → EchoBuf
    next n given = record { count = suc n; shards = given; rootvalid = leb (c.threshold + 1) n }

    enough :
        (n : ℕ) (m : RbcMsg) (ms : List RbcMsg) (given : List Bytes)
        → n ≡ c.threshold
        → (leb (c.threshold + 1) n ≡ true) ⊎ ((known given ≡ n) × Untouched given (m ∷ ms))
        → m.id - 1 < length given
        → 0 < length (get_or shards (m.id - 1) [])
        → c.threshold + 1 ≤ known (set given (m.id - 1) (get_or shards (m.id - 1) []))
    enough n m ms given same (inl h) inside some_bytes = absurd (ground arith)
    enough n m ms given same (inr (k, u)) inside some_bytes =
        omega
          (arith, known-set given (m.id - 1) (get_or shards (m.id - 1) []) inside u.0 some_bytes)

    at_quorum :
        (n : ℕ) (m : RbcMsg) (ms : List RbcMsg) (s : Follower) (b : Before n (m ∷ ms) s)
        → Truthful c input root shards m
        → n ≡ c.threshold
        → Goes (suc n) ms s (next n (set b.given (m.id - 1) (get_or shards (m.id - 1) [])))
    unfolding at_low
    at_quorum n m ms s b t same =
        let i = m.id - 1 in
        let x = get_or shards i [] in
        let given = set b.given i x in
        let e = next n given in
        let inside : i < length b.given = omega (arith, b.partial.0, p.sizes, t.above, t.below) in
        let here : (suc n == c.threshold + 1) ≡ true = ground arith in
        let now : leb (c.threshold + 1) (suc n) ≡ true = ground arith in
        let not_before : leb (c.threshold + 1) n ≡ false = ground arith in
        (
          record (with_echo s e) {
            echomap =
                put_buf (with_echo s e).echomap root
                  (record e { shards = shards; rootvalid = true });
            candidates = s.candidates ++ (answer ∷ []);
          },
          rw here (
              ap (rebuilt coding c root e (with_echo s e)) (
                reconstruct-all given (Partial-set b.given shards i b.partial inside) (
                  enough n m ms b.given same b.fresh inside
                    (filled_at shards i p.filled (omega (arith, b.partial.0, inside)))))
              ∙ ap (checked coding c root e input shards (with_echo s e)) p.roots
              ∙ rw (bytes_equal_refl root) refl),
          record {
            given = shards;
            entry =
                put_buf-same (with_echo s e).echomap root
                  (record e { shards = shards; rootvalid = true })
                ∙ ap (λ v. some (record { count = suc n; shards = shards; rootvalid = v }))
                    (sym now);
            partial = (refl, λ j. inr refl);
            fresh = inl now;
            cands = rw now (
                ap (λ cs. cs ++ (answer ∷ []))
                  (b.cands ∙ ap (λ (v : Bool). if v then answer ∷ [] else []) not_before));
            quiet = b.quiet;
            active = b.active;
            counted = omega (arith, b.counted);
          },
        )

    off_quorum :
        (n : ℕ) (m : RbcMsg) (ms : List RbcMsg) (s : Follower) (b : Before n (m ∷ ms) s)
        → Truthful c input root shards m
        → AllTruthful c input root shards ms
        → Others m.id ms
        → n ≢ c.threshold
        → Goes (suc n) ms s (next n (set b.given (m.id - 1) (get_or shards (m.id - 1) [])))
    unfolding at_low
    off_quorum n m ms s b t ts o other =
        let i = m.id - 1 in
        let x = get_or shards i [] in
        let e = next n (set b.given i x) in
        let inside : i < length b.given = omega (arith, b.partial.0, p.sizes, t.above, t.below) in
        let not_here : (suc n == c.threshold + 1) ≡ false = ground arith in
        let same : leb (c.threshold + 1) n ≡ leb (c.threshold + 1) (suc n) = ground arith in
        (
          with_echo s e,
          rw not_here refl,
          record {
            given = set b.given i x;
            entry =
                put_buf-same s.echomap root e
                ∙ ap (λ v. some (record { count = suc n; shards = set b.given i x; rootvalid = v }))
                    same;
            partial = Partial-set b.given shards i b.partial inside;
            fresh = elim b.fresh [
              | inl h ↦ inl (sym same ∙ h)
              | inr (k, u) ↦ inr (
                known-set b.given i x inside u.0
                      (filled_at shards i p.filled (omega (arith, b.partial.0, inside)))
                    ∙ ap suc k,
                Untouched-set c input root shards b.given m.id x ms t.above ts o u.1,
              )
            ];
            cands = b.cands ∙ ap (λ v. if v then answer ∷ [] else []) same;
            quiet = b.quiet;
            active = b.active;
            counted = omega (arith, b.counted);
          },
        )

    pub low-Low :
        (n : ℕ) (m : RbcMsg) (ms : List RbcMsg) (s : Follower)
        → Before n (m ∷ ms) s
        → Truthful c input root shards m
        → AllTruthful c input root shards ms
        → Others m.id ms
        → Goes (suc n) ms s (stored c.num (s.echomap root) m.id (get_or shards (m.id - 1) []))
    low-Low n m ms s b t ts o =
        subst (Goes (suc n) ms s) (sym (b.stores m.id (get_or shards (m.id - 1) [])))
          (elim (ℕ_discrete n c.threshold) [
            | yes same ↦ at_quorum n m ms s b t same
            | no other ↦ off_quorum n m ms s b t ts o other
          ])

    -- Short of a quorum of echoes the second test does nothing.
    pub high_waits :
        (n : ℕ) (ms : List RbcMsg) (u : Follower)
        → Low n ms u
        → n < c.threshold * 2 + 1
        → n < c.num
        → at_high coding c root (some u) ≡ some u
    unfolding at_high
    high_waits n ms u l early few =
        let not_yet : (n == c.threshold * 2 + 1) ≡ false = ground arith in
        let not_all : (u.echocount == c.num) ≡ false = ground (arith, l.counted) in
        ap (λ o. ended coding c (valid_at coding c root u o)) l.entry ∙ rw not_yet (rw not_all refl)

    abbrev pub Done : Follower → Type 0
    Done t = (t.candidates ≡ answer ∷ []) × (t.readysignal ≡ root ∷ []) × (t.echo_returned ≡ true)

    ended-Done :
        (t : Follower)
        → Done t
        → Done (if t.echocount == c.num then record t { echo_returned = true } else t)
    ended-Done t d = elim (Bool-cases (t.echocount == c.num)) [
      | inl e ↦ rw e (d.0, d.1, refl)
      | inr e ↦ rw e d
    ]

    pub high_ends :
        (n : ℕ) (ms : List RbcMsg) (u : Follower)
        → Low n ms u
        → n ≡ c.threshold * 2 + 1
        → (t : Follower) × (at_high coding c root (some u) ≡ some t) × Done t
    unfolding at_high
    high_ends n ms u l now =
        let here : (n == c.threshold * 2 + 1) ≡ true = ground arith in
        let low : leb (c.threshold + 1) n ≡ true = ground arith in
        let t = record u { readysignal = u.readysignal ++ (root ∷ []); echo_returned = true } in
        let cands : u.candidates ≡ answer ∷ [] =
          l.cands ∙ ap (λ (v : Bool). if v then answer ∷ [] else []) low in
        (
          (if t.echocount == c.num then record t { echo_returned = true } else t),
          ap (λ o. ended coding c (valid_at coding c root u o)) l.entry ∙ rw (here, low) refl,
          ended-Done t (cands, ap (λ rs. rs ++ (root ∷ [])) l.quiet, refl),
        )
