-- ===== src/Spooler/Ring/Tests.antt =====
-- The ring of spooler_shared.c and spooler_unsafe.c on small inputs.
use operating_systems_and_sy.Prelude.{ℕ, ◌≡◌, refl, none, some, [], ◌∷◌, arith}
use operating_systems_and_sy.Spooler.Queue
use operating_systems_and_sy.Spooler.Ring.{
  Spool, spool_init_shared, spool_full, spool_insert_unchecked, spool_insert_unsafe,
  spool_remove_unsafe, spool_remove_unchecked,
}
use operating_systems_and_sy.Spooler.Ring.Bounds.{IsValid}
use operating_systems_and_sy.Spooler.Ring.Overwrite.{insert_unchecked-full}
use operating_systems_and_sy.Spooler.Ring.Fifo.{
  Represents, init-Represents, insert-Represents, insert_unsafe_refines, remove_unsafe_refines,
}

abbrev fresh : Spool ℕ
fresh = spool_init_shared (0 ∷ 0 ∷ []) 2

fresh-Represents : Represents fresh []
fresh-Represents = init-Represents (0 ∷ 0 ∷ []) 2 (omega arith) (omega arith) (omega arith)

abbrev one : Spool ℕ
one = (spool_insert_unchecked fresh 5).0

one-Represents : Represents one (5 ∷ [])
unfolding spool_full spool_init_shared
one-Represents = insert-Represents 5 fresh-Represents refl

insert_unsafe_refines_example :
    Represents (spool_insert_unsafe one 6).0 (Queue.insert one.size (5 ∷ []) 6)
    × ((spool_insert_unsafe one 6).1 ≡ none)
insert_unsafe_refines_example = insert_unsafe_refines 6 one-Represents

remove_unsafe_refines_example :
    Represents (spool_remove_unsafe one).0 (Queue.remove (5 ∷ [])).0
    × ((spool_remove_unsafe one).1 ≡ (Queue.remove (5 ∷ [])).1)
remove_unsafe_refines_example = remove_unsafe_refines one-Represents

-- The third insertion into a ring of two changes nothing; the first string comes out first.
third_is_dropped :
    (spool_remove_unsafe (spool_insert_unsafe (spool_insert_unsafe one 6).0 7).0).1 ≡ some 5
unfolding spool_init_shared spool_insert_unsafe spool_remove_unsafe spool_insert_unchecked
    spool_remove_unchecked
third_is_dropped = refl

abbrev filled : Spool ℕ
filled = (spool_insert_unchecked one 6).0

filled-Represents : Represents filled (5 ∷ 6 ∷ [])
unfolding spool_full spool_init_shared spool_insert_unchecked
filled-Represents = insert-Represents 6 one-Represents refl

insert_unchecked-full_example :
    ((spool_insert_unchecked filled 7).1 ≡ some 5)
    × ((spool_remove_unchecked (spool_insert_unchecked filled 7).0).1 ≡ some 7)
    × (¬ IsValid (spool_insert_unchecked filled 7).0)
unfolding spool_full spool_init_shared spool_insert_unchecked
insert_unchecked-full_example = insert_unchecked-full 7 filled-Represents refl (omega arith)
