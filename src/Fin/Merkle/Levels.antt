-- ===== src/Fin/Merkle/Levels.antt =====
-- Trees level by level, the description that VerifyPath is compared with.
use native.Mathlib.Nat.{pow-succ'}
use dumbo_ms.Prelude.{
  ℕ, zero, suc, ◌+◌, ◌-◌, ◌/◌, ◌%◌, ◌^◌, ◌≤◌, ◌<◌, ◌≡◌, refl, sym, ap, ◌∙◌, arith, inl, inr,
  Bool-cases, true, false, List, [], ◌∷◌, ◌++◌, map, ◌==◌, ltb, if◌then◌else◌, length, get_or,
  length-append, length-map,
}
use dumbo_ms.Fin.Messages.{Bytes, bytes_equal, bytes_equal_refl}
use dumbo_ms.Fin.Merkle.{get_merkle_path, root_of, parent, verify_rest, verify_from, verify_path}

module _ (sha256 : Bytes → Bytes) where
  -- The next level; a last hash without a neighbour is paired with itself.
  abbrev pub pairs : List Bytes → List Bytes
  pairs [] = []
  pairs (x ∷ []) = sha256 (x ++ x) ∷ []
  pairs (x ∷ y ∷ hs) = sha256 (x ++ y) ∷ pairs hs

  abbrev pub neighbour : List Bytes → ℕ → Bytes
  neighbour hs k = if k % 2 == 0 then get_or hs (k + 1) (get_or hs k []) else get_or hs (k - 1) []

  -- The neighbours on the way up, and the hash at the top, after `d` levels.
  abbrev pub neighbours : ℕ → List Bytes → ℕ → List Bytes
  neighbours zero hs k = []
  neighbours (suc d) hs k = neighbour hs k ∷ neighbours d (pairs hs) (k / 2)

  abbrev pub top : ℕ → List Bytes → Bytes
  top zero hs = get_or hs 0 []
  top (suc d) hs = top d (pairs hs)

  length-pairs : (hs : List Bytes) → length (pairs hs) ≡ (length hs + 1) / 2
  length-pairs [] = omega arith
  length-pairs (x ∷ []) = omega arith
  length-pairs (x ∷ y ∷ hs) = omega (arith, length-pairs hs)

  neighbour_next :
      (x y : Bytes) (hs : List Bytes) (k : ℕ)
      → neighbour (x ∷ y ∷ hs) (suc (suc k)) ≡ neighbour hs k
  neighbour_next x y hs k =
      let same : suc (suc k) % 2 ≡ k % 2 = omega arith in
      elim (Bool-cases (k % 2 == 0)) [
        | inl even ↦
            let place : suc (suc k) + 1 ≡ suc (suc (k + 1)) = omega arith in
            rw (same, even, place) refl
        | inr odd ↦
            let odd_place : k % 2 ≡ 1 = ground arith in
            let place : suc (suc k) - 1 ≡ suc (suc (k - 1)) = omega arith in
            rw (same, odd, place) refl
      ]

  pairs-parent :
      (hs : List Bytes) (k : ℕ)
      → k < length hs
      → get_or (pairs hs) (k / 2) [] ≡ parent sha256 k (get_or hs k []) (neighbour hs k)
  pairs-parent [] k h = absurd (omega arith)
  pairs-parent (x ∷ []) zero h = refl
  pairs-parent (x ∷ []) (suc k) h = absurd (omega arith)
  pairs-parent (x ∷ y ∷ hs) zero h = refl
  pairs-parent (x ∷ y ∷ hs) (suc zero) h = refl
  pairs-parent (x ∷ y ∷ hs) (suc (suc k)) h =
      let half : suc (suc k) / 2 ≡ suc (k / 2) = omega arith in
      let same : suc (suc k) % 2 ≡ k % 2 = omega arith in
      ap (λ i. get_or {A = Bytes} (sha256 (x ++ y) ∷ pairs hs) i []) half
      ∙ pairs-parent hs k (omega arith)
      ∙ sym (
          ap (λ n. parent sha256 (suc (suc k)) (get_or hs k []) n) (neighbour_next x y hs k)
          ∙ ap
              (λ (b : ℕ).
                if b == 0
                then sha256 (get_or hs k [] ++ neighbour hs k)
                else sha256 (neighbour hs k ++ get_or hs k []))
              same)

  verify_climb :
      (a h last : Bytes) (k : ℕ) (rest : List Bytes)
      → verify_rest sha256 a k (h ∷ (rest ++ (last ∷ [])))
        ≡ verify_rest sha256 (parent sha256 k a h) (k / 2) (rest ++ (last ∷ []))
  unfolding verify_rest
  verify_climb a h last k [] = refl
  verify_climb a h last k (x ∷ rest) = refl

  one_left :
      (hs : List Bytes) (k : ℕ) → length hs ≤ 1 → k < length hs → get_or hs k [] ≡ get_or hs 0 []
  one_left hs zero h k = refl
  one_left hs (suc n) h k = absurd (omega arith)

  verify_up :
      (d : ℕ) (hs : List Bytes) (k : ℕ)
      → length hs ≤ 2 ^ d
      → k < length hs
      → verify_rest sha256 (get_or hs k []) k (neighbours d hs k ++ (top d hs ∷ [])) ≡ true
  unfolding verify_rest
  verify_up zero hs k few inside =
      ap (λ h. bytes_equal h (get_or hs 0 [])) (one_left hs k (omega arith) inside)
      ∙ bytes_equal_refl (get_or hs 0 [])
  verify_up (suc d) hs k few inside =
      let pairs_few : length (pairs hs) ≤ 2 ^ d = omega (arith, length-pairs hs, pow-succ' 2 d) in
      verify_climb (get_or hs k []) (neighbour hs k) (top d (pairs hs)) k
        (neighbours d (pairs hs) (k / 2))
      ∙ ap
          (λ a.
            verify_rest sha256 a (k / 2)
              (neighbours d (pairs hs) (k / 2) ++ (top d (pairs hs) ∷ [])))
          (sym (pairs-parent hs k inside))
      ∙ verify_up d (pairs hs) (k / 2) pairs_few (omega (arith, length-pairs hs))

  length-neighbours : (d : ℕ) (hs : List Bytes) (k : ℕ) → length (neighbours d hs k) ≡ d
  length-neighbours zero hs k = refl
  length-neighbours (suc d) hs k = ap suc (length-neighbours d (pairs hs) (k / 2))

  get_or-last : (hs : List Bytes) (root : Bytes) → get_or (hs ++ (root ∷ [])) (length hs) [] ≡ root
  get_or-last [] root = refl
  get_or-last (h ∷ hs) root = get_or-last hs root

  pub last_root : (hs : List Bytes) (x root : Bytes) → root_of (x ∷ (hs ++ (root ∷ []))) ≡ root
  last_root hs x root =
      let place : suc (length (hs ++ (root ∷ []))) - 1 ≡ suc (length hs) =
        omega (arith, length-append hs (root ∷ [])) in
      ap (λ k. get_or (x ∷ (hs ++ (root ∷ []))) k []) place ∙ get_or-last hs root

  verify_path-when :
      (root : Bytes) (path : List Bytes) (k : ℕ)
      → 3 ≤ length path
      → root_of path ≡ root
      → verify_from sha256 path k ≡ true
      → verify_path sha256 root path k ≡ true
  unfolding verify_path
  verify_path-when root path k long same accepted =
      let enough : ltb (length path) 3 ≡ false = ground arith in
      let equal : bytes_equal root (root_of path) ≡ true = rw same (bytes_equal_refl root) in
      rw (enough, equal) accepted

  get_or-map :
      (shards : List Bytes) (k : ℕ)
      → k < length shards
      → get_or (map sha256 shards) k [] ≡ sha256 (get_or shards k [])
  get_or-map [] k h = absurd (omega arith)
  get_or-map (x ∷ shards) zero h = refl
  get_or-map (x ∷ shards) (suc k) h = get_or-map shards k (omega arith)

  -- The path of a shard in a tree of its level hashes, of at least two levels, is accepted at the
  -- place of the shard.
  pub verify_path-top :
      (d : ℕ) (shards : List Bytes) (k : ℕ)
      → length shards ≤ 2 ^ suc d
      → k < length shards
      → verify_path sha256
          (top (suc d) (map sha256 shards))
          (get_merkle_path
            (neighbours (suc d) (map sha256 shards) k)
            (top (suc d) (map sha256 shards))
            (get_or shards k []))
          k
        ≡ true
  unfolding verify_path
  verify_path-top d shards k few inside =
      let hs = map sha256 shards in
      let sizes : length hs ≡ length shards = length-map shards sha256 in
      let ns = neighbours (suc d) hs k in
      let root = top (suc d) hs in
      verify_path-when root (get_merkle_path ns root (get_or shards k [])) k
        (omega (arith, length-neighbours (suc d) hs k, length-append ns (root ∷ [])))
        (last_root ns (get_or shards k []) root)
        (ap (λ h. verify_rest sha256 h k (ns ++ (root ∷ []))) (sym (get_or-map shards k inside))
          ∙ verify_up (suc d) hs k (omega arith) (omega arith))
