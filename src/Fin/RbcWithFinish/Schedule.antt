-- ===== src/Fin/RbcWithFinish/Schedule.antt =====
-- Reachable states by evaluation: the messages in a given order.
use mathlib.Core.List.{Memᴰ}
use dumbo_ms.Prelude.{
  ℕ, ◌+◌, arith, ◌≡◌, refl, ◌⊎◌, inl, inr, Bool, true, false, ◌&&◌, List, [], ◌∷◌, Option, none,
  some, ◌==◌, ==_iff, ltb, ltb→lt, if◌then◌else◌, foldl,
}
use dumbo_ms.Fin.Messages.{RbcMsg}
use dumbo_ms.Fin.RbcWithFinish.Network.{
  Node, Setting, System, heard_from, node_receives, node_sends_ready, init, deliver, go_ready,
  Reach, start, later,
}

-- A test with its outcome, to run.
abbrev checked : (b : Bool) → (b ≡ true) ⊎ (b ≡ false)
checked true = inl refl
checked false = inr refl

-- Node `to` takes in what `from` has sent it of a type, or the `send_ready` of a node goes on.
pub data Action : Type 0 where
  take_in : (from t to : ℕ) → Action
  ready_on : (i : ℕ) → Action

-- A sent message that passes a test.
abbrev find_in : (RbcMsg → Bool) → (ms : List RbcMsg) → Option ((m : RbcMsg) × Memᴰ m ms)
find_in test [] = none
find_in test (m ∷ ms) = elim (find_in test ms) [
  | some p ↦ some (p.0, Memᴰ.tail p.1)
  | none ↦ if test m then some (m, Memᴰ.head refl) else none
]

pub true_not_false : true ≡ false → ⊥
true_not_false b = cc

module _ (g : Setting) where
  pub record Run : Type 0 where
    pub last : System
    pub reach : Reach g last

  delivered :
      (r : Run) (i : ℕ) (m : RbcMsg) (o : Option (Node × List RbcMsg))
      → (g.honest m.id ≡ true → Memᴰ m r.last.sent)
      → node_receives g i m (r.last.node i) ≡ o
      → g.honest i ≡ true
      → ltb 0 m.id ≡ true
      → ltb m.id (g.num + 1) ≡ true
      → (m.rcv_id == i) ≡ true
      → (heard_from m.msg_type m.id (r.last.heard i) == 0) ≡ true
      → Run
  delivered r i m none d e h low high to fresh = r
  delivered r i m (some p) d e h low high to fresh = record {
    last = _;
    reach = later r.reach (
        deliver i m p.0 p.1 h (let a = ltb→lt 0 m.id low in omega arith)
          (let a = ltb→lt m.id (g.num + 1) high in omega arith) ((==_iff m.rcv_id i).0 to)
          ((==_iff (heard_from m.msg_type m.id (r.last.heard i)) 0).0 fresh) d e);
  }

  sent_on :
      (r : Run) (i : ℕ) (o : Option (Node × List RbcMsg))
      → node_sends_ready g i (r.last.node i) ≡ o
      → g.honest i ≡ true
      → Run
  sent_on r i none e h = r
  sent_on r i (some p) e h = record { last = _; reach = later r.reach (go_ready i p.0 p.1 h e) }

  try_deliver : (r : Run) (i : ℕ) (m : RbcMsg) → (g.honest m.id ≡ true → Memᴰ m r.last.sent) → Run
  unfolding delivered
  try_deliver r i m d = elim (checked (g.honest i)) [
    | inr _ ↦ r
    | inl a ↦ elim (checked (ltb 0 m.id)) [
      | inr _ ↦ r
      | inl b ↦ elim (checked (ltb m.id (g.num + 1))) [
        | inr _ ↦ r
        | inl c ↦ elim (checked (m.rcv_id == i)) [
          | inr _ ↦ r
          | inl k ↦ elim (checked (heard_from m.msg_type m.id (r.last.heard i) == 0)) [
            | inr _ ↦ r
            | inl f ↦ delivered r i m (node_receives g i m (r.last.node i)) d refl a b c k f
          ]
        ]
      ]
    ]
  ]

  turn : Run → Action → Run
  unfolding try_deliver sent_on
  turn r (take_in from t to) =
      elim (find_in (λ m. (m.id == from) && (m.msg_type == t) && (m.rcv_id == to)) r.last.sent) [
        | none ↦ r
        | some p ↦ try_deliver r to p.0 (λ t. p.1)
      ]
  turn r (ready_on i) = elim (checked (g.honest i)) [
    | inr _ ↦ r
    | inl a ↦ sent_on r i (node_sends_ready g i (r.last.node i)) refl a
  ]

  unfoldable pub run : List Action → Run
  unfolding turn
  run actions = foldl turn (record { last = init g; reach = start }) actions
