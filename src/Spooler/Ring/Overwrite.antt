-- ===== src/Spooler/Ring/Overwrite.antt =====
-- What `spool_insert_unchecked` does to a full ring.
use native.Mathlib.Nat.{mod-eq_of_lt, mod-eq-sub-mod}
use operating_systems_and_sy.Prelude.{
  ℕ, ◌+◌, ◌-◌, ◌%◌, ◌<◌, ◌≡◌, sym, ap, ◌∙◌, true, false, some, List, ◌∷◌, get_elem?, set,
  get_elem?-set_self, ◌==◌, arith,
}
use operating_systems_and_sy.Spooler.Ring.{
  Spool, add_size, spool_empty, spool_full, spool_insert_unchecked, spool_remove_unchecked,
}
use operating_systems_and_sy.Spooler.Ring.Bounds.{used, IsValid}
use operating_systems_and_sy.Spooler.Ring.Fifo.{Represents, Holds, slot, round_ne}

module _ {ℓ} {A : Type ℓ} where
  -- A full ring writes where it reads.
  full_index : (sp : Spool A) → IsValid sp → spool_full sp ≡ true → sp.write_index ≡ sp.read_index
  unfolding spool_full
  full_index sp v full =
      let whole : sp.read_index + used sp ≡ sp.read_index + sp.size = ground arith in
      v.write_at
      ∙ ap (λ (k : ℕ). k % sp.size) whole
      ∙ omega (
        arith,
        v.read_in,
        mod-eq-sub-mod {n = sp.read_index + sp.size} {m = sp.size} (omega (arith, v.some_room)),
        mod-eq_of_lt {n = sp.read_index + sp.size - sp.size} {m = sp.size}
            (omega (arith, v.read_in)),
      )

  head_at :
      {elements : List A} {n i : ℕ} {a : A} {q : List A}
      → Holds elements n i (a ∷ q)
      → get_elem? elements i ≡ some a
  head_at (slot e rest) = e

  stored :
      (sp : Spool A) (x : A)
      → IsValid sp
      → spool_full sp ≡ true
      → ((spool_insert_unchecked sp x).1 ≡ get_elem? sp.elements sp.write_index)
        × ((spool_insert_unchecked sp x).0 ≡ record sp {
          elements = set sp.elements sp.write_index x;
          write_index = add_size sp.write_index 1 % sp.size;
        })
  unfolding spool_insert_unchecked
  stored sp x v full = ground (arith, v.some_room)

  next_taken :
      (sp : Spool A) (x : A)
      → IsValid sp
      → spool_full sp ≡ true
      → (spool_remove_unchecked (spool_insert_unchecked sp x).0).1 ≡ some x
  unfolding spool_remove_unchecked spool_empty spool_full
  next_taken sp x v full =
      let not_empty : (sp.capacity == sp.size) ≡ false = ground (arith, v.some_room) in
      rw ((stored sp x v full).1, not_empty, full_index sp v full)
        (get_elem?-set_self sp.elements sp.read_index x (omega (arith, v.read_in, v.storage)))

  broken :
      (sp : Spool A) (x : A)
      → IsValid sp
      → spool_full sp ≡ true
      → 1 < sp.size
      → ¬ IsValid (spool_insert_unchecked sp x).0
  unfolding spool_full
  broken sp x v full two bad =
      let bad' = rw (stored sp x v full).1 at bad in
      let at : sp.write_index ≡ add_size sp.write_index 1 % sp.size =
        v.write_at ∙ sym bad'.write_at in
      let lt : sp.write_index < sp.size = omega (arith, full_index sp v full, v.read_in) in
      let whole : add_size sp.write_index 1 ≡ sp.write_index + 1 = omega (arith, lt, v.small) in
      round_ne sp.size sp.write_index 0 lt two (sym (at ∙ ap (λ (k : ℕ). k % sp.size) whole))

  -- On a full ring of more than one slot, `spool_insert_unchecked` frees the oldest string and puts
  -- the new one in its place but not behind the others: the next removal returns the new string, and
  -- the write index is no longer where the next free slot will be.
  pub insert_unchecked-full :
      {sp : Spool A} {a : A} {q : List A} (x : A)
      → Represents sp (a ∷ q)
      → spool_full sp ≡ true
      → 1 < sp.size
      → ((spool_insert_unchecked sp x).1 ≡ some a)
        × ((spool_remove_unchecked (spool_insert_unchecked sp x).0).1 ≡ some x)
        × (¬ IsValid (spool_insert_unchecked sp x).0)
  insert_unchecked-full {sp} x r full two = (
    (stored sp x r.valid full).0
        ∙ ap (get_elem? sp.elements) (full_index sp r.valid full)
        ∙ head_at r.held,
    next_taken sp x r.valid full,
    broken sp x r.valid full two,
  )
