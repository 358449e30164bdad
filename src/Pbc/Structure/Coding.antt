-- ===== src/Pbc/Structure/Coding.antt =====
-- What the byte strings of a structure promise: the announced lengths are those written, and an
-- element is read back from its bytes whatever follows them.
use dumbo_ms.Prelude.{ℕ, ◌≡◌, List, ◌++◌, length, some}
use dumbo_ms.Pbc.Structure.{Structure}

pub record IsCoding {E : Type 0} (o : Structure E) : Type 0 where
  pub coding_length : (e : E) → o.length_in_bytes e ≡ length (o.to_bytes e)
  pub coding_fixed :
      (n : ℕ) → o.fixed_length_in_bytes ≡ some n → (e : E) → length (o.to_bytes e) ≡ n
  pub coding_read :
      (e : E) (rest : List ℕ)
      → o.from_bytes (o.to_bytes e ++ rest) ≡ record { value = e; len = length (o.to_bytes e) }
