-- ===== src/Spooler/Ring/Bounds.antt =====
-- The representation invariant of `spool_t`: indices inside the storage, no wrap of `size_t`.
use native.Mathlib.Nat.{mod-add-mod}
use operating_systems_and_sy.Prelude.{
  ℕ, ◌+◌, ◌-◌, ◌%◌, ◌^◌, ◌≤◌, ◌<◌, ◌≡◌, List, length, length-set, arith, false,
}
use operating_systems_and_sy.Spooler.Ring.{
  Spool, spool_init_shared, spool_full, spool_insert_unchecked, spool_remove_unchecked,
}

module _ {ℓ} {A : Type ℓ} where
  abbrev pub used : Spool A → ℕ
  used sp = sp.size - sp.capacity

  pub record IsValid (sp : Spool A) : Type 0 where
    pub some_room : 0 < sp.size
    pub small : sp.size < 2 ^ 63
    pub storage : sp.size ≤ length sp.elements
    pub free_in : sp.capacity ≤ sp.size
    pub read_in : sp.read_index < sp.size
    pub write_at : sp.write_index ≡ (sp.read_index + used sp) % sp.size

  pub init-IsValid :
      (s : List A) (n : ℕ) → 0 < n → n < 2 ^ 63 → n ≤ length s → IsValid (spool_init_shared s n)
  unfolding spool_init_shared
  init-IsValid s n pos small room = grind arith

  pub insert-IsValid :
      (sp : Spool A) (a : A)
      → IsValid sp
      → spool_full sp ≡ false
      → IsValid (spool_insert_unchecked sp a).0
  unfolding spool_insert_unchecked
  insert-IsValid sp a v h = ground (
    arith,
    length-set sp.elements sp.write_index a,
    mod-add-mod (sp.read_index + used sp) sp.size 1,
  )

  pub remove-IsValid : (sp : Spool A) → IsValid sp → IsValid (spool_remove_unchecked sp).0
  unfolding spool_remove_unchecked
  remove-IsValid sp v =
      ground (arith, mod-add-mod (sp.read_index + 1) sp.size (sp.size - sp.capacity - 1))
