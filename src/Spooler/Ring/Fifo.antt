-- ===== src/Spooler/Ring/Fifo.antt =====
-- A valid ring holds a queue: its strings from `read_index` on.
use native.Mathlib.Nat.{mod-add-mod, mod-eq_of_lt, mod-eq-sub-mod, mod-lt}
use operating_systems_and_sy.Prelude.{
  ℕ, suc, ◌+◌, ◌-◌, ◌%◌, ◌^◌, ◌≤◌, ◌<◌, ◌≡◌, refl, ap, ◌∙◌, ◌≢◌, List, [], ◌∷◌, ◌++◌, length, arith,
  false, Option, none, some, get_elem?, get_elem?-set_self, get_elem?-set_ne, set, dec_lt, ◌==◌,
  Bool-cases, inl, inr, length-append, sym,
}
use operating_systems_and_sy.Spooler.Queue
use operating_systems_and_sy.Spooler.Ring.{
  Spool, spool_init_shared, store_item, spool_empty, spool_full, spool_insert_unchecked,
  spool_remove_unchecked, spool_insert_unsafe, spool_remove_unsafe,
}
use operating_systems_and_sy.Spooler.Ring.Bounds.{
  used, IsValid, init-IsValid, insert-IsValid, remove-IsValid,
}

-- Fewer than `n` steps round the ring do not come back to the start.
pub round_ne : (n i k : ℕ) → i < n → suc k < n → (i + suc k) % n ≢ i
round_ne n i k hi hk = elim (dec_lt (i + suc k) n) [
  | yes p ↦ omega (arith, mod-eq_of_lt p)
  | no p ↦ omega (
    arith,
    mod-eq-sub-mod {n = i + suc k} {m = n} (omega arith),
    mod-eq_of_lt {n = i + suc k - n} {m = n} (omega arith),
  )
]

-- One slot on: the index, and one string fewer.
shift : (n i k j : ℕ) → j ≡ (i + suc k) % n → j ≡ ((i + 1) % n + k) % n
shift n i k j e = let same : i + suc k ≡ i + 1 + k = omega arith in rw (mod-add-mod, ← same) e

module _ {ℓ} {A : Type ℓ} where
  -- `q` stands in the slots of `elements` from index `i` on, going round at `n`.
  pub data Holds (elements : List A) (n : ℕ) : ℕ → List A → Type ℓ where
    empty : {i : ℕ} → Holds elements n i []
    slot :
        {i : ℕ} {a : A} {q : List A}
        → get_elem? elements i ≡ some a
        → Holds elements n ((i + 1) % n) q
        → Holds elements n i (a ∷ q)

  -- The ring `sp` represents the queue `q`.
  pub record Represents (sp : Spool A) (q : List A) : Type ℓ where
    pub valid : IsValid sp
    pub count : length q ≡ used sp
    pub held : Holds sp.elements sp.size sp.read_index q

  -- A spool just initialised, on enough storage, holds no string.
  pub init-Represents :
      (s : List A) (n : ℕ)
      → 0 < n
      → n < 2 ^ 63
      → n ≤ length s
      → Represents (spool_init_shared s n) []
  unfolding spool_init_shared
  init-Represents s n pos small room = record {
    valid = init-IsValid s n pos small room;
    count = omega arith;
    held = empty;
  }

  -- A write just past the held slots extends them by the written string.
  Holds-set :
      (xs : List A) (n i j : ℕ) (a : A) {q : List A}
      → n ≤ length xs
      → i < n
      → length q < n
      → j ≡ (i + length q) % n
      → Holds xs n i q
      → Holds (set xs j a) n i (q ++ a ∷ [])
  Holds-set xs n i j a room hi hq e empty =
      let at : j ≡ i = omega (arith, mod-eq_of_lt {n = i + 0} {m = n} (omega arith)) in
      rw at (slot (get_elem?-set_self xs i a (omega arith)) empty)
  Holds-set xs n i j a room hi hq e (slot {q = q} here rest) =
      slot (get_elem?-set_ne xs a (λ same. round_ne n i (length q) hi hq (sym e ∙ same)) ∙ here) (
        Holds-set xs n ((i + 1) % n) j a room (mod-lt (i + 1) (omega arith)) (omega arith)
          (shift n i (length q) j e) rest)

  length-snoc : (q : List A) (a : A) → length (q ++ a ∷ []) ≡ length q + 1
  length-snoc q a = length-append q (a ∷ [])

  -- With a free slot, insertion stores the string and frees nothing.
  pub insert_room :
      (sp : Spool A) (a : A)
      → IsValid sp
      → spool_full sp ≡ false
      → spool_insert_unchecked sp a
        ≡ (store_item (record sp { capacity = sp.capacity - 1 }) a, none)
  unfolding spool_insert_unchecked
  insert_room sp a v h = ground arith

  remove_some :
      (sp : Spool A)
      → IsValid sp
      → spool_empty sp ≡ false
      → spool_remove_unchecked sp ≡ (
        record sp { capacity = sp.capacity + 1; read_index = (sp.read_index + 1) % sp.size },
        get_elem? sp.elements sp.read_index,
      )
  unfolding spool_remove_unchecked
  remove_some sp v h =
      let no_wrap : (sp.capacity + 1) % 2 ^ 64 ≡ sp.capacity + 1 = omega arith in
      let no_wrap' : (sp.read_index + 1) % 2 ^ 64 ≡ sp.read_index + 1 = omega arith in
      rw (h, no_wrap, no_wrap')

  Holds-cons :
      {xs : List A} {n i : ℕ} {a : A} {q : List A}
      → Holds xs n i (a ∷ q)
      → (get_elem? xs i ≡ some a) × Holds xs n ((i + 1) % n) q
  Holds-cons (slot here rest) = (here, rest)

  insert_held :
      {sp : Spool A} {q : List A} (a : A)
      → Represents sp q
      → spool_full sp ≡ false
      → Holds (set sp.elements sp.write_index a) sp.size sp.read_index (q ++ a ∷ [])
  unfolding spool_full
  insert_held {sp} {q} a r h =
      Holds-set sp.elements sp.size sp.read_index sp.write_index a v.storage v.read_in
        (ground arith) (rw r.count v.write_at) r.held
    where
      v : IsValid sp
      v = r.valid

  -- `spool_insert_unchecked` with a free slot adds the string at the end of the queue.
  pub insert-Represents :
      {sp : Spool A} {q : List A} (a : A)
      → Represents sp q
      → spool_full sp ≡ false
      → Represents (spool_insert_unchecked sp a).0 (q ++ a ∷ [])
  insert-Represents {sp} {q} a r h = record {
    valid = insert-IsValid sp a r.valid h;
    count =
        rw (insert_room sp a r.valid h)
          (unfold spool_full in ground (arith, length-snoc q a, r.count));
    held = rw (insert_room sp a r.valid h) (insert_held a r h);
  }

  pub not_empty :
      {sp : Spool A} {q : List A} {a : A} → Represents sp (a ∷ q) → spool_empty sp ≡ false
  unfolding spool_empty
  not_empty r = ground arith

  -- `spool_remove_unchecked` takes the first string of the queue.
  pub remove-Represents :
      {sp : Spool A} {q : List A} {a : A}
      → Represents sp (a ∷ q)
      → ((spool_remove_unchecked sp).1 ≡ some a) × Represents (spool_remove_unchecked sp).0 q
  remove-Represents {sp} {q} {a} r =
      let step = remove_some sp r.valid (not_empty r) in
      let (first, rest) = Holds-cons r.held in
      (
        rw step first,
        record {
          valid = remove-IsValid sp r.valid;
          count = rw step (omega arith);
          held = rw step rest;
        },
      )

  -- From a valid ring with no string, nothing is removed and nothing changes.
  pub remove_none : {sp : Spool A} → Represents sp [] → spool_remove_unchecked sp ≡ (sp, none)
  unfolding spool_remove_unchecked
  remove_none r = ground arith

  pub Represents-full :
      {sp : Spool A} {q : List A} → Represents sp q → spool_full sp ≡ (length q == sp.size)
  unfolding spool_full
  Represents-full r = ground arith

  pub Represents-empty :
      {sp : Spool A} {q : List A} → Represents sp q → spool_empty sp ≡ (length q == 0)
  unfolding spool_empty
  Represents-empty r = ground arith

  -- On a ring that represents a queue, `spool_insert_unsafe` is the insertion of the queue of at most
  -- `size` strings, which leaves a full queue as it is, and it frees no string.
  pub insert_unsafe_refines :
      {sp : Spool A} {q : List A} (a : A)
      → Represents sp q
      → Represents (spool_insert_unsafe sp a).0 (Queue.insert sp.size q a)
        × ((spool_insert_unsafe sp a).1 ≡ none)
  unfolding spool_insert_unsafe Queue.insert
  insert_unsafe_refines {sp} {q} a r = elim (Bool-cases (spool_full sp)) [
    | inl full ↦ let e = sym (Represents-full r) ∙ full in rw (full, e) (r, refl)
    | inr room ↦
        let e = sym (Represents-full r) ∙ room in
        rw (room, e)
          (
            insert-Represents a r room,
            ap (λ (p : Spool A × Option A). p.1) (insert_room sp a r.valid room),
          )
  ]

  -- On a ring that represents a queue, `spool_remove_unsafe` returns the oldest string and leaves a
  -- ring that represents the others; of an empty queue it returns NULL and changes nothing in the queue.
  pub remove_unsafe_refines :
      {sp : Spool A} {q : List A}
      → Represents sp q
      → Represents (spool_remove_unsafe sp).0 (Queue.remove q).0
        × ((spool_remove_unsafe sp).1 ≡ (Queue.remove q).1)
  unfolding spool_remove_unsafe Queue.remove
  remove_unsafe_refines {sp} {q = []} r = rw (Represents-empty r) (r, refl)
  remove_unsafe_refines {sp} {q = a ∷ q} r =
      rw (not_empty r) (let (out, rest) = remove-Represents r in (rest, out))
