-- ===== src/Fin/Messages.antt =====
-- Messages of consensus/fin, structure/normalstruct.go, and the maps from byte strings to counts
-- in which its handlers count them.
use dumbo_ms.Prelude.{
  ℕ, zero, suc, ◌+◌, arith, ◌≡◌, refl, ap₂, Bool, true, false, ◌&&◌, List, [], ◌∷◌, Option, none,
  some, ◌==◌, ==_iff, Bool-cases, inl, inr, if◌then◌else◌,
}

abbrev pub Bytes : Type 0
Bytes = List ℕ

-- `bytes.Equal`, and the equality of keys `string(root)`
unfoldable pub bytes_equal : Bytes → Bytes → Bool
bytes_equal [] [] = true
bytes_equal [] (y ∷ ys) = false
bytes_equal (x ∷ xs) [] = false
bytes_equal (x ∷ xs) (y ∷ ys) = (x == y) && bytes_equal xs ys

-- `type RBCMsg`
pub record RbcMsg : Type 0 where
  pub id : ℕ
  pub rcv_id : ℕ
  pub leader : ℕ
  pub round : ℕ
  pub msg_type : ℕ
  pub msglen : ℕ
  pub root : Bytes
  pub values : List Bytes

-- `type BAMsg`
pub record BaMsg : Type 0 where
  pub id : ℕ
  pub rcv_id : ℕ
  pub mvbaround : ℕ
  pub baround : ℕ
  pub loop : ℕ
  pub msg_type : ℕ
  pub value : Bool
  pub conf_value : List Bool

-- `for i := 0; i < num; i++ { msg.RcvID = i + 1 .. }`, from receiver i + 1 on.
abbrev pub to_all : ℕ → ℕ → RbcMsg → List RbcMsg
to_all zero i msg = []
to_all (suc n) i msg = record msg { rcv_id = i + 1 } ∷ to_all n (i + 1) msg

-- `map[string]int`
abbrev pub Tally : Type 0
Tally = Bytes → Option ℕ

abbrev pub empty : Tally
empty value = none

-- What reading a key gives: 0 where it is missing.
abbrev pub value_of : Option ℕ → ℕ
value_of none = 0
value_of (some n) = n

abbrev raised : Option ℕ → Option ℕ
raised none = some 1
raised (some n) = some (n + 1)

-- `_, ok := m[k]; if ok { m[k]++ } else { m[k] = 1 }`
unfoldable pub count_up : Tally → Bytes → Tally
unfolding bytes_equal
count_up m key other = if bytes_equal key other then raised (m other) else m other

pub bytes_equal_refl : (xs : Bytes) → bytes_equal xs xs ≡ true
unfolding bytes_equal
bytes_equal_refl [] = refl
bytes_equal_refl (x ∷ xs) = rw ((==_iff x x).1 refl, bytes_equal_refl xs) refl

pub bytes_equal-true : (xs ys : Bytes) → bytes_equal xs ys ≡ true → xs ≡ ys
unfolding bytes_equal
bytes_equal-true [] [] h = refl
bytes_equal-true [] (y ∷ ys) h = ground arith
bytes_equal-true (x ∷ xs) [] h = ground arith
bytes_equal-true (x ∷ xs) (y ∷ ys) h = elim (Bool-cases (x == y)) [
  | inl e ↦ elim (Bool-cases (bytes_equal xs ys)) [
    | inl k ↦ ap₂ (λ u v. u ∷ v) ((==_iff x y).0 e) (bytes_equal-true xs ys k)
    | inr k ↦ absurd (ground (arith, e, k, h))
  ]
  | inr e ↦ absurd (ground (arith, e, h))
]

pub value_of-raised : (o : Option ℕ) → value_of (raised o) ≡ suc (value_of o)
value_of-raised none = refl
value_of-raised (some n) = omega arith

-- Counting up raises the one key.
pub value_of-count_up :
    (m : Tally) (key other : Bytes)
    → value_of (count_up m key other)
      ≡ (if bytes_equal key other then suc (value_of (m other)) else value_of (m other))
unfolding count_up
value_of-count_up m key other = elim (Bool-cases (bytes_equal key other)) [
  | inl e ↦ rw e (value_of-raised (m other))
  | inr e ↦ rw e refl
]
