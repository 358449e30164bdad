-- ===== src/Pbc/Darray.antt =====
-- The dynamic array of misc/darray.c and misc/darray.h.
pub mod Blocks
pub mod Refine
pub mod Search
pub mod Script
use dumbo_ms.Prelude.{
  ℕ, zero, suc, ◌+◌, ◌-◌, ◌*◌, Bool, false, Option, none, some, List, [], ◌++◌, length, get_or, set,
  take, drop, replicate, ◌==◌, if◌then◌else◌, Eq,
}

-- An allocated cell: `none` is one that was never written, whose content is indeterminate.
abbrev pub Cell {ℓ} : Type ℓ → Type ℓ
Cell A = Option A

-- `struct darray_s`: the block behind `item`, and its two counters.
pub record Darray {ℓ} (A : Type ℓ) : Type ℓ where
  pub item : List (Cell A)
  pub count : ℕ
  pub max : ℕ

abbrev pub max_init : ℕ
max_init = 8

-- `if (!a->max) a->max = max_init; else a->max *= 2;`
abbrev pub next_max : ℕ → ℕ
next_max m = if m == 0 then max_init else m * 2

module _ {ℓ} {A : Type ℓ} where
  -- `pbc_malloc` of n cells, and `pbc_realloc` to n cells.
  abbrev pub malloc : ℕ → List (Cell A)
  malloc n = replicate n none

  abbrev pub realloc : List (Cell A) → ℕ → List (Cell A)
  realloc block n = take n block ++ replicate (n - length block) none

  -- `memmove(&item[n], &item[n + 1], k cells)`.
  abbrev pub memmove_down : List (Cell A) → ℕ → ℕ → List (Cell A)
  memmove_down block n k = take n block ++ (take k (drop (suc n) block) ++ drop (n + k) block)

  unfoldable pub init : Darray A
  init = record { item = malloc max_init; count = 0; max = max_init }

  unfoldable pub remove_all : Darray A → Darray A
  remove_all a = record { item = malloc max_init; count = 0; max = max_init }

  unfoldable pub remove_last : Darray A → Darray A
  remove_last a = record a { count = a.count - 1 }

  pub realloc_to : Darray A → ℕ → Darray A
  realloc_to a size = record a { max = size; item = realloc a.item size }

  -- The array as `darray_append` leaves it before the write.
  unfoldable pub grown : Darray A → Darray A
  grown a =
      if a.count == a.max
      then record a { max = next_max a.max; item = realloc a.item (next_max a.max) }
      else a

  unfoldable pub append : Darray A → A → Darray A
  unfolding grown
  append a p =
      let b = grown a in record b { item = set b.item b.count (some p); count = b.count + 1 }

  -- `darray_clear` frees the block.
  unfoldable pub clear : Darray A → Darray A
  clear a = record { item = []; count = 0; max = 0 }

  unfoldable pub remove_index : Darray A → ℕ → Darray A
  remove_index a n = record a {
    count = a.count - 1;
    item = memmove_down a.item n (a.count - 1 - n);
  }

  -- A read of an indeterminate or foreign cell is `none`.
  unfoldable pub at : Darray A → ℕ → Option A
  at a i = get_or a.item i none

  unfoldable pub last : Darray A → Option A
  unfolding at
  last a = at a (a.count - 1)

  unfoldable pub is_empty : Darray A → Bool
  is_empty a = a.count == 0

  -- A test applied to the content of a cell.
  abbrev pub cell_test : (A → Bool) → Cell A → Bool
  cell_test test none = false
  cell_test test (some x) = test x

  -- `for (i = ..; i < a->count; i++) if (test(a->item[i])) return i;` with `rounds` left.
  unfoldable pub find_from : (A → Bool) → List (Cell A) → ℕ → ℕ → Option ℕ
  find_from test block zero i = none
  find_from test block (suc rounds) i =
      let later = find_from test block rounds (i + 1) in
      if cell_test test (get_or block i none) then some i else later

  -- -1 is `none`.
  unfoldable pub index_of : ⦃e : Eq A⦄ → Darray A → A → Option ℕ
  unfolding find_from
  index_of ⦃e⦄ a p = find_from (λ x. e.beq x p) a.item a.count 0

  -- The body of `darray_remove` at the index that its loop stops at. Where the value is not found
  -- `assert(0)` is compiled out, and nothing happens.
  pub removed_at : Darray A → Option ℕ → Darray A
  removed_at a none = a
  removed_at a (some i) = record a {
    count = a.count - 1;
    item = memmove_down a.item i (a.count - 1 - i);
  }

  unfoldable pub remove : ⦃e : Eq A⦄ → Darray A → A → Darray A
  unfolding find_from removed_at
  remove ⦃e⦄ a p = removed_at a (find_from (λ x. e.beq x p) a.item a.count 0)

  -- `for (; i < a->count; i++) a->item[i] = a->item[i+1];` with `rounds` left.
  pub shift_from : List (Cell A) → ℕ → ℕ → List (Cell A)
  shift_from block zero i = block
  shift_from block (suc rounds) i =
      shift_from (set block i (get_or block (i + 1) none)) rounds (i + 1)

  -- The inner loop leaves `i` past the end, so the outer loop stops after one removal.
  pub shifted_at : Darray A → Option ℕ → Darray A
  shifted_at a none = a
  shifted_at a (some i) = record a { item = shift_from a.item (a.count - i) i; count = a.count - 1 }

  unfoldable pub remove_with_test : Darray A → (A → Bool) → Darray A
  unfolding find_from shift_from shifted_at
  remove_with_test a test = shifted_at a (find_from test a.item a.count 0)

  unfoldable pub copy : Darray A → Darray A → Darray A
  unfolding realloc_to
  copy dst src =
      let d = realloc_to dst src.count in
      record d { item = take src.count src.item ++ drop src.count d.item; count = src.count }

  pub read_at : Darray A → Option ℕ → Option A
  read_at a none = none
  read_at a (some i) = get_or a.item i none

  -- NULL is `none`.
  unfoldable pub at_test : Darray A → (A → Bool) → Option A
  unfolding find_from read_at
  at_test a test = read_at a (find_from test a.item a.count 0)

-- `func(a->item[i])` for i from 0 on, with its effect on a state of the caller.
module _ {ℓ κ} {A : Type ℓ} {S : Type κ} where
  abbrev pub visit : (S → A → S) → S → Cell A → S
  visit func s none = s
  visit func s (some x) = func s x

  unfoldable pub forall_from : (S → A → S) → List (Cell A) → ℕ → ℕ → S → S
  forall_from func block zero i s = s
  forall_from func block (suc rounds) i s =
      forall_from func block rounds (i + 1) (visit func s (get_or block i none))

  unfoldable pub forall : Darray A → (S → A → S) → S → S
  unfolding forall_from
  forall a func s = forall_from func a.item a.count 0 s
