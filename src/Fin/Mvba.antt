-- ===== src/Fin/Mvba.antt =====
-- The choice of a leader in consensus/fin/MVBA/sfmvba.go. The hash is a parameter.
use native.Mathlib.Nat.{mod-lt, mod-le}
use dumbo_ms.Prelude.{ℕ, ◌+◌, ◌*◌, ◌%◌, ◌≤◌, ◌<◌, arith, List, get_or}
use dumbo_ms.Fin.BinaryAgreement.{int_to_bytes}

-- `Node_num` and the rounds of `MVBA`
pub record Mvba : Type 0 where
  pub node_num : ℕ
  pub roundmvba : ℕ
  pub roundba : ℕ
  pub loop : ℕ

unfoldable pub common_coin : (List ℕ → List ℕ) → Mvba → ℕ
unfolding int_to_bytes
common_coin sha256 s =
    get_or (sha256 (int_to_bytes (s.roundmvba * 100 + s.roundba * 10 + s.loop))) 0 0 % s.node_num
    + 1

coin_bounds : (h n : ℕ) → h < 256 → 0 < n → (1 ≤ h % n + 1) × (h % n + 1 ≤ n) × (h % n + 1 ≤ 256)
coin_bounds h n small some_nodes =
    let a = mod-lt h some_nodes in let b = mod-le h n in (omega arith, omega arith, omega arith)

-- Where the hash gives bytes and there are nodes, the leader is one of the nodes, and one of the
-- first 256, as the coin is one byte of the hash.
pub common_coin-bounds :
    (sha256 : List ℕ → List ℕ) (s : Mvba)
    → ((xs : List ℕ) → get_or (sha256 xs) 0 0 < 256)
    → 0 < s.node_num
    → (1 ≤ common_coin sha256 s)
      × (common_coin sha256 s ≤ s.node_num)
      × (common_coin sha256 s ≤ 256)
unfolding common_coin
common_coin-bounds sha256 s bytes some_nodes =
    coin_bounds (get_or (sha256 (int_to_bytes (s.roundmvba * 100 + s.roundba * 10 + s.loop))) 0 0)
      s.node_num (bytes (int_to_bytes (s.roundmvba * 100 + s.roundba * 10 + s.loop))) some_nodes
