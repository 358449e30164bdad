-- ===== src/Fin/Merkle.antt =====
-- The Merkle paths of consensus/fin/support/merkle-tree/merkletree.go: their form and VerifyPath.
-- The hash is a parameter; two writes to it hash the bytes one after the other.
pub mod Levels
pub mod Binding
use dumbo_ms.Prelude.{
  ℕ, ◌-◌, ◌/◌, ◌%◌, Bool, false, List, [], ◌∷◌, ◌++◌, ◌==◌, ltb, if◌then◌else◌, length, get_or,
}
use dumbo_ms.Fin.Messages.{Bytes, bytes_equal}

-- What `GetMerklePath` makes of the hashes and the root that the library gives.
abbrev pub get_merkle_path : List Bytes → Bytes → Bytes → List Bytes
get_merkle_path hashes root shard = shard ∷ hashes ++ (root ∷ [])

abbrev pub root_of : List Bytes → Bytes
root_of path = get_or path (length path - 1) []

module _ (sha256 : Bytes → Bytes) where
  -- The hash of two children, of which the one at the place `k` is `lasthash`.
  abbrev pub parent : ℕ → Bytes → Bytes → Bytes
  parent k lasthash hash =
      if k % 2 == 0 then sha256 (lasthash ++ hash) else sha256 (hash ++ lasthash)

  -- The loop from its second round on.
  unfoldable pub verify_rest : Bytes → ℕ → List Bytes → Bool
  unfolding bytes_equal
  verify_rest lasthash k [] = false
  verify_rest lasthash k (hash ∷ []) = bytes_equal lasthash hash
  verify_rest lasthash k (hash ∷ next ∷ path) =
      verify_rest (parent k lasthash hash) (k / 2) (next ∷ path)

  abbrev pub verify_from : List Bytes → ℕ → Bool
  verify_from [] index = false
  verify_from (shard ∷ path) index = verify_rest (sha256 shard) index path

  unfoldable pub verify_path : Bytes → List Bytes → ℕ → Bool
  unfolding verify_rest
  verify_path root path index =
      if ltb (length path) 3
      then false
      else if bytes_equal root (root_of path)
      then verify_from path index
      else false
