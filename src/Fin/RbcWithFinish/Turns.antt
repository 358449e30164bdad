-- ===== src/Fin/RbcWithFinish/Turns.antt =====
-- What one step of a node, follower or leader, changes of its votes.
use mathlib.Core.List.{Memᴰ}
use mathlib.Core.List.Memᴰ
use mathlib.Core.Option.{some-injective, none-ne-some}
use dumbo_ms.Prelude.{
  ℕ, ◌+◌, ◌-◌, ◌*◌, ◌/◌, ◌≡◌, refl, sym, subst, List, [], ◌∷◌, ◌++◌, Option, none, some,
}
use dumbo_ms.Fin.Messages.{Bytes, RbcMsg}
use dumbo_ms.Fin.RbcWithFinish.{new_broadcast, Follower, receive, send_ready}
use dumbo_ms.Fin.RbcWithFinish.Leader.{Leader}
use dumbo_ms.Fin.RbcWithFinish.Leader as Leading
use dumbo_ms.Fin.RbcWithFinish.Network.{
  Node, follower, leader, Setting, broadcast, as_follower, as_leader, node_receives,
  node_sends_ready,
}
use dumbo_ms.Fin.RbcWithFinish.Votes.{Vote, All, Ended, Change}
use dumbo_ms.Fin.RbcWithFinish.Follows.{one_vote}
use dumbo_ms.Fin.RbcWithFinish.Routed.{receive-Change, send_ready-Change}
use dumbo_ms.Fin.RbcWithFinish.Leads as Leads

pub All-map {ℓ κ μ} :
    {A : Type ℓ} (P : A → Type κ) (Q : A → Type μ) (xs : List A)
    → ((x : A) → P x → Q x)
    → All P xs
    → All Q xs
All-map P Q [] f h = tt
All-map P Q (x ∷ xs) f h = (f x h.0, All-map P Q xs f h.1)

pub All-append {ℓ κ} :
    {A : Type ℓ} (P : A → Type κ) (xs ys : List A) → All P xs → All P ys → All P (xs ++ ys)
All-append P [] ys h k = k
All-append P (x ∷ xs) ys h k = (h.0, All-append P xs ys h.1 k)

pub All-mem {ℓ κ} : {A : Type ℓ} (P : A → Type κ) (x : A) (xs : List A) → All P xs → Memᴰ x xs → P x
All-mem P x [] h d = absurd (Memᴰ.not-nil d)
All-mem P x (y ∷ xs) h (Memᴰ.head e) = subst P (sym e) h.0
All-mem P x (y ∷ xs) h (Memᴰ.tail d) = All-mem P x xs h.1 d

module _ (g : Setting) where
  abbrev pub quorum : ℕ
  quorum = (g.num - 1) / 3 * 2 + 1

  abbrev pub Changes : Vote → ℕ → (Bytes → ℕ) → Node → Node × List RbcMsg → Type 0
  Changes w i more n p = Change i quorum w more n p.0 p.1 × (Ended n → Ended p.0)

  from_follower :
      (w : Vote) (i : ℕ) (more : Bytes → ℕ) (n : Node) (o : Option (Follower × List RbcMsg))
      (p : Node × List RbcMsg)
      → as_follower o ≡ some p
      → ((a : Follower × List RbcMsg) → o ≡ some a → Changes w i more n (follower a.0, a.1))
      → Changes w i more n p
  from_follower w i more n none p e h = absurd (none-ne-some p e)
  from_follower w i more n (some a) p e h =
      subst (Changes w i more n) (some-injective _ p e) (h a refl)

  from_leader :
      (w : Vote) (i : ℕ) (more : Bytes → ℕ) (n : Node) (o : Option (Leader × List RbcMsg))
      (p : Node × List RbcMsg)
      → as_leader o ≡ some p
      → ((a : Leader × List RbcMsg) → o ≡ some a → Changes w i more n (leader a.0, a.1))
      → Changes w i more n p
  from_leader w i more n none p e h = absurd (none-ne-some p e)
  from_leader w i more n (some a) p e h =
      subst (Changes w i more n) (some-injective _ p e) (h a refl)

  -- A message that a node takes in changes its votes as `Change` says.
  pub node_receives-Change :
      (w : Vote) (i : ℕ) (m : RbcMsg) (n : Node) (p : Node × List RbcMsg)
      → Ended n
      → node_receives g i m n ≡ some p
      → Changes w i (one_vote w m) n p
  unfolding node_receives broadcast new_broadcast
  node_receives-Change w i m (follower s) p d e =
      from_follower w i (one_vote w m) (follower s)
        (receive (broadcast g i) (g.check_input_rbc i) m s) p e
        (λ a k. receive-Change (broadcast g i) m s (g.check_input_rbc i) w a d k)
  node_receives-Change w i m (leader s) p d e =
      from_leader w i (one_vote w m) (leader s) (Leading.receive (broadcast g i) m s) p e
        (λ a k. (Leads.receive-Change (broadcast g i) (one_vote w m) w m s a k, λ d. d))

  pub node_sends_ready-Change :
      (w : Vote) (i : ℕ) (n : Node) (p : Node × List RbcMsg)
      → node_sends_ready g i n ≡ some p
      → Changes w i (λ v. 0) n p
  unfolding node_sends_ready broadcast new_broadcast
  node_sends_ready-Change w i (follower s) p e =
      from_follower w i (λ v. 0) (follower s) (send_ready (broadcast g i) s) p e
        (λ a k. send_ready-Change (broadcast g i) s w a k)
  node_sends_ready-Change w i (leader s) p e =
      from_leader w i (λ v. 0) (leader s) (Leading.send_ready (broadcast g i) s) p e
        (λ a k. (Leads.send_ready-Change (broadcast g i) (λ v. 0) w s a k, λ d. d))
