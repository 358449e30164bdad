-- ===== src/Fin/ReedSolomon.antt =====
-- The wrapper consensus/fin/support/reed-solomon/reed-solomon.go. What it calls of the libraries for
-- erasure codes and Merkle trees is a record of functions; an error, after which the code panics,
-- is `none`, and a shard that is missing is empty.
pub mod Prefix
use dumbo_ms.Prelude.{
  ℕ, zero, suc, ◌+◌, List, [], ◌∷◌, ◌++◌, Option, none, some, if◌then◌else◌, length, ltb, leb,
}
use dumbo_ms.Fin.Messages.{Bytes}

-- With `k` data shards among `n`.
pub record Coding : Type 0 where
  -- `Split`, `Encode` and `Verify`
  pub encode : (k n : ℕ) → Bytes → Option (List Bytes)
  -- `Reconstruct`, which fills in the missing shards
  pub rebuild : (k n : ℕ) → List Bytes → Option (List Bytes)
  pub merkle_root : List Bytes → Option Bytes
  -- The hashes of `GetMerklePath` on the tree of the shards
  pub merkle_hashes : List Bytes → Bytes → Option (List Bytes)

-- `for _, B := range shards[i] { out = append(out, B); if len(out) >= msglen { break } }`
unfoldable pub append_until : Bytes → ℕ → Bytes → Bytes
append_until [] msglen out = out
append_until (b ∷ shard) msglen out =
    let rest = append_until shard msglen (out ++ (b ∷ [])) in
    if leb msglen (length out + 1) then out ++ (b ∷ []) else rest

-- The loop over `i < msglen` with the rounds that are left; an index past the shards, and too few
-- bytes at the end, end the program.
unfoldable pub collect : List Bytes → ℕ → ℕ → Bytes → Option Bytes
unfolding append_until
collect shards zero msglen out = if ltb (length out) msglen then none else some out
collect [] (suc rounds) msglen out = none
collect (shard ∷ shards) (suc rounds) msglen out =
    let longer = append_until shard msglen out in
    let rest = collect shards rounds msglen longer in
    if leb msglen (length longer) then some longer else rest

abbrev pub collected : ℕ → Option (List Bytes) → Option (Bytes × List Bytes)
collected msglen none = none
collected msglen (some full) = elim (collect full msglen msglen []) [
  | none ↦ none
  | some out ↦ some (out, full)
]

-- The message, and the shards that are filled in in place.
unfoldable pub reconstruct : Coding → ℕ → ℕ → List Bytes → ℕ → Option (Bytes × List Bytes)
unfolding collect
reconstruct coding k n shards msglen = collected msglen (coding.rebuild k n shards)
