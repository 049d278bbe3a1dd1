-- ===== src/Spooler/Ring.antt =====
-- Spooler/spooler_shared.c and Spooler/spooler_unsafe.c: the ring buffer under every variant.
-- `A` is the type of the strings that the `char*` elements point to; NULL is `none`.
pub mod Bounds
pub mod Fifo
pub mod Overwrite
mod Tests
use operating_systems_and_sy.Prelude.{
  ℕ, ◌+◌, ◌-◌, ◌%◌, ◌^◌, Bool, Option, none, some, List, get_elem?, set, ◌==◌, if◌then◌else◌,
}

-- `spool_t` of part 1. `capacity` counts the free slots.
pub record Spool {ℓ} (A : Type ℓ) : Type ℓ where
  pub write_index : ℕ
  pub read_index : ℕ
  pub size : ℕ
  pub capacity : ℕ
  pub elements : List A

-- `size_t` addition
abbrev pub add_size : ℕ → ℕ → ℕ
add_size a b = (a + b) % 2 ^ 64

module _ {ℓ} {A : Type ℓ} where
  -- `storage` is what `malloc(sizeof(char*)*size)` returns, with whatever it holds.
  unfoldable pub spool_init_shared : List A → ℕ → Spool A
  spool_init_shared storage size = record {
    write_index = 0;
    read_index = 0;
    size = size;
    capacity = size;
    elements = storage;
  }

  unfoldable pub spool_empty : Spool A → Bool
  spool_empty sp = sp.capacity == sp.size

  unfoldable pub spool_full : Spool A → Bool
  spool_full sp = sp.capacity == 0

  -- The store `sp->elements[sp->write_index] = item`, and the step of the index round the ring.
  abbrev pub store_item : Spool A → A → Spool A
  store_item sp item = record sp {
    elements = set sp.elements sp.write_index item;
    write_index = add_size sp.write_index 1 % sp.size;
  }

  -- The option is the element that the call frees. `capacity --` runs only above 0.
  unfoldable pub spool_insert_unchecked : Spool A → A → Spool A × Option A
  unfolding spool_full
  spool_insert_unchecked sp item =
      if sp.size == 0
      then (sp, none)
      else if spool_full sp
      then (store_item sp item, get_elem? sp.elements sp.write_index)
      else (store_item (record sp { capacity = sp.capacity - 1 }) item, none)

  -- A read out of the bounds of `elements` is `none`; `Bounds` rules it out.
  unfoldable pub spool_remove_unchecked : Spool A → Spool A × Option A
  unfolding spool_empty
  spool_remove_unchecked sp = if spool_empty sp then (sp, none) else (
    record sp {
      capacity = add_size sp.capacity 1;
      read_index = add_size sp.read_index 1 % sp.size;
    },
    get_elem? sp.elements sp.read_index,
  )

  unfoldable pub reveal_buffer : Spool A → List A
  reveal_buffer sp = sp.elements

  unfoldable pub spool_insert_unsafe : Spool A → A → Spool A × Option A
  unfolding spool_full
  spool_insert_unsafe sp item = if spool_full sp then (sp, none) else spool_insert_unchecked sp item

  unfoldable pub spool_remove_unsafe : Spool A → Spool A × Option A
  unfolding spool_empty
  spool_remove_unsafe sp = if spool_empty sp then (sp, none) else spool_remove_unchecked sp
