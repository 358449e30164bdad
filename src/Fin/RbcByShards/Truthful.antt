-- ===== src/Fin/RbcByShards/Truthful.antt =====
-- A follower that hears echoes of the shards that an honest leader has made.
use dumbo_ms.Prelude.{
  ℕ, zero, suc, ◌-◌, ◌≤◌, ◌<◌, ◌≡◌, ◌≢◌, refl, sym, ap, ◌∙◌, subst, arith, inr, ◌⊎◌, List, [], ◌∷◌,
  some, length, get_or, set, length-set, ℕ_discrete,
}
use dumbo_ms.Fin.Messages.{Bytes, bytes_equal_refl, RbcMsg}
use dumbo_ms.Fin.Driver.Bits.{get_or-set_same, get_or-set_other}
use dumbo_ms.Fin.Merkle.{root_of}
use dumbo_ms.Fin.ReedSolomon.{}
use dumbo_ms.Fin.ReedSolomon.Prefix.{AllFilled}
use dumbo_ms.Fin.RbcByShards.{Instance, EchoBuf, EchoMap, put_buf}

-- How many shards there are.
abbrev pub known : List Bytes → ℕ
known [] = 0
known ([] ∷ ss) = known ss
known ((x ∷ s) ∷ ss) = suc (known ss)

-- Every shard is missing or the one of the list.
abbrev pub Partial : List Bytes → List Bytes → Type 0
Partial given shards =
    (length given ≡ length shards)
    × ((j : ℕ) → (get_or given j [] ≡ []) ⊎ (get_or given j [] ≡ get_or shards j []))

pub known-set :
    (given : List Bytes) (i : ℕ) (s : Bytes)
    → i < length given
    → get_or given i [] ≡ []
    → 0 < length s
    → known (set given i s) ≡ suc (known given)
known-set [] i s h e f = absurd (omega arith)
known-set ([] ∷ ss) zero [] h e f = absurd (omega arith)
known-set ([] ∷ ss) zero (y ∷ s) h e f = refl
known-set ((x ∷ g) ∷ ss) zero s h e f = absurd (ground arith)
known-set ([] ∷ ss) (suc i) s h e f = known-set ss i s (omega arith) e f
known-set ((x ∷ g) ∷ ss) (suc i) s h e f = ap suc (known-set ss i s (omega arith) e f)

pub Partial-set :
    (given shards : List Bytes) (i : ℕ)
    → Partial given shards
    → i < length given
    → Partial (set given i (get_or shards i [])) shards
Partial-set given shards i (sizes, agree) inside = (
  length-set given i (get_or shards i []) ∙ sizes,
  λ j. elim (ℕ_discrete j i) [
    | yes same ↦ inr (
        subst (λ k. get_or (set given i (get_or shards i [])) k [] ≡ get_or shards k []) (sym same)
          (get_or-set_same given i (get_or shards i []) [] inside))
    | no other ↦
        subst (λ x. (x ≡ []) ⊎ (x ≡ get_or shards j []))
          (sym (get_or-set_other given i j (get_or shards i []) [] other)) (agree j)
  ],
)

pub filled_at :
    (shards : List Bytes) (i : ℕ)
    → AllFilled shards
    → i < length shards
    → 0 < length (get_or shards i [])
filled_at [] i f h = absurd (omega arith)
filled_at (s ∷ ss) zero f h = f.0
filled_at (s ∷ ss) (suc i) f h = filled_at ss i f.1 (omega arith)

pub put_buf-same : (m : EchoMap) (root : Bytes) (e : EchoBuf) → put_buf m root e root ≡ some e
unfolding put_buf
put_buf-same m root e = rw (bytes_equal_refl root) refl

-- No shard of these senders is there, and no sender of the list comes twice.
abbrev pub Untouched : List Bytes → List RbcMsg → Type 0
Untouched given [] = Unit
Untouched given (m ∷ ms) = (get_or given (m.id - 1) [] ≡ []) × Untouched given ms

abbrev pub Others : ℕ → List RbcMsg → Type 0
Others id [] = Unit
Others id (m ∷ ms) = (m.id ≢ id) × Others id ms

abbrev pub Distinct : List RbcMsg → Type 0
Distinct [] = Unit
Distinct (m ∷ ms) = Others m.id ms × Distinct ms

-- An echo of the shard that belongs to its sender.
pub record Truthful (c : Instance) (input root : Bytes) (shards : List Bytes) (m : RbcMsg)
    : Type 0 where
  pub now : m.round ≡ c.height
  pub above : 1 ≤ m.id
  pub below : m.id ≤ c.num
  pub len : m.msglen ≡ length input
  pub path : List Bytes
  pub values : m.values ≡ get_or shards (m.id - 1) [] ∷ path
  pub ends : root_of (get_or shards (m.id - 1) [] ∷ path) ≡ root

abbrev pub AllTruthful :
    (c : Instance) (input root : Bytes) (shards : List Bytes) → List RbcMsg → Type 0
AllTruthful c input root shards [] = Unit
AllTruthful c input root shards (m ∷ ms) =
    Truthful c input root shards m × AllTruthful c input root shards ms

pub Untouched-set :
    (c : Instance) (input root : Bytes) (shards given : List Bytes) (id : ℕ) (x : Bytes)
    (ms : List RbcMsg)
    → 1 ≤ id
    → AllTruthful c input root shards ms
    → Others id ms
    → Untouched given ms
    → Untouched (set given (id - 1) x) ms
Untouched-set c input root shards given id x [] h t o u = tt
Untouched-set c input root shards given id x (m ∷ ms) h t o u = (
  get_or-set_other given (id - 1) (m.id - 1) x [] (λ e. o.0 (omega (arith, e, t.0.above))) ∙ u.0,
  Untouched-set c input root shards given id x ms h t.1 o.1 u.1,
)
