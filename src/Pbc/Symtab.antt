-- ===== src/Pbc/Symtab.antt =====
-- The symbol table of misc/symtab.c: a dynamic array of entries, searched from the front.
-- An entry is owned by its table alone, so it is held by value; a write through the pointer to it
-- is a write of its cell. Keys are compared by `strcmp`, the equality of the key type.
pub mod Laws
use dumbo_ms.Prelude.{ℕ, ◌≡◌, Bool, true, false, Option, none, some, set, get_or, Eq}
use dumbo_ms.Pbc.Darray
use dumbo_ms.Pbc.Darray.{Darray, Cell, find_from}

-- `struct entry_s`; its field `data` is `value` here.
pub record Entry {ℓ κ} (K : Type ℓ) (D : Type κ) : Type (ℓ ⊔ κ) where
  pub key : K
  pub value : D

pub record Symtab {ℓ κ} (K : Type ℓ) (D : Type κ) : Type (ℓ ⊔ κ) where
  pub list : Darray (Entry K D)

pub is_found : Option ℕ → Bool
is_found none = false
is_found (some i) = true

module _ {ℓ κ} {K : Type ℓ} {D : Type κ} where
  unfoldable pub init : Symtab K D
  init = record { list = Darray.init }

  unfoldable pub clear : Symtab K D → Symtab K D
  clear t = record { list = Darray.clear t.list }

  -- `e->data = data` for the entry in a cell.
  abbrev pub write_value : D → Cell (Entry K D) → Cell (Entry K D)
  write_value d none = none
  write_value d (some e) = some (record e { value = d })

  -- `!strcmp(e->key, key)`
  abbrev pub has_key : ⦃e : Eq K⦄ → K → Entry K D → Bool
  has_key ⦃e⦄ key entry = e.beq entry.key key

  -- The index of the first entry with the key: the loop that the operations share.
  unfoldable pub position : ⦃e : Eq K⦄ → Symtab K D → K → Option ℕ
  unfolding find_from
  position t key = find_from (has_key key) t.list.item t.list.count 0

  pub put_at : Symtab K D → D → K → Option ℕ → Symtab K D
  put_at t d key none = record { list = Darray.append t.list (record { key = key; value = d }) }
  put_at t d key (some i) = record {
    list = record (t.list) { item = set t.list.item i (write_value d (get_or t.list.item i none)) };
  }

  unfoldable pub put : ⦃e : Eq K⦄ → Symtab K D → D → K → Symtab K D
  unfolding position put_at
  put t d key = put_at t d key (position t key)

  unfoldable pub has : ⦃e : Eq K⦄ → Symtab K D → K → Bool
  unfolding position is_found
  has t key = is_found (position t key)

  abbrev pub cell_value : Cell (Entry K D) → Option D
  cell_value none = none
  cell_value (some e) = some (e.value)

  pub value_at : Symtab K D → Option ℕ → Option D
  value_at t none = none
  value_at t (some i) = cell_value (get_or t.list.item i none)

  -- NULL is `none`.
  unfoldable pub at : ⦃e : Eq K⦄ → Symtab K D → K → Option D
  unfolding position value_at
  at t key = value_at t (position t key)

-- `func(e->data)` for each entry, with its effect on a state of the caller.
module _ {ℓ κ μ} {K : Type ℓ} {D : Type κ} {S : Type μ} where
  unfoldable pub forall_data : Symtab K D → (S → D → S) → S → S
  forall_data t func s = Darray.forall t.list (λ s' e. func s' (Entry.value e)) s
