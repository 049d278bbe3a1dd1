-- ===== src/Http/Pool/Queue.antt =====
-- `wq_t` of wq.c. The list operations DL_APPEND and DL_DELETE are those of utlist.h, an interface
-- here with its documented behaviour.
use operating_systems_and_sy.Prelude.{
  ℕ, ◌+◌, ◌-◌, ◌<◌, ◌≡◌, refl, ◌∙◌, ap, Option, none, some, List, [], ◌∷◌, ◌++◌, length,
  length-append, arith, ◌%◌, ◌^◌, ◌==◌, false, if◌then◌else◌, Bool-cases, inl, inr, ==_iff,
}

-- A doubly linked list of sockets, by its head pointer: empty is NULL, `items` are the elements that a
-- traversal gives.
pub record DoublyLinked : Type 1 where
  pub Head : Type 0
  pub empty : Head
  pub items : Head → List ℕ
  pub first : Head → Option ℕ
  pub dl_append : Head → ℕ → Head
  pub dl_delete_first : Head → Head
  pub items-empty : items empty ≡ []
  pub items-append : (h : Head) (fd : ℕ) → items (dl_append h fd) ≡ items h ++ fd ∷ []
  pub items-first : (h : Head) (fd : ℕ) (rest : List ℕ) → items h ≡ fd ∷ rest → first h ≡ some fd
  pub items-delete :
      (h : Head) (fd : ℕ) (rest : List ℕ) → items h ≡ fd ∷ rest → items (dl_delete_first h) ≡ rest

-- `size` is a 32-bit `int`.
pub record Wq (dl : DoublyLinked) : Type 0 where
  pub size : ℕ
  pub head : dl.Head

-- What `wq_pop` does when it has the mutex: it waits on the condition variable, it returns a socket,
-- or it reads through a head that is NULL.
pub data Popped (dl : DoublyLinked) : Type 0 where
  waits : Popped dl
  popped : ℕ → Wq dl → Popped dl
  crashes : Popped dl

module _ (dl : DoublyLinked) where
  unfoldable pub wq_init : Wq dl
  wq_init = record { size = 0; head = dl.empty }

  unfoldable pub wq_pop : Wq dl → Popped dl
  wq_pop wq = if wq.size == 0 then waits else elim (dl.first wq.head) [
    | none ↦ crashes
    | some client_socket_fd ↦
        popped client_socket_fd
          (record { size = (wq.size + (2 ^ 32 - 1)) % 2 ^ 32; head = dl.dl_delete_first wq.head })
  ]

  unfoldable pub wq_push : Wq dl → ℕ → Wq dl
  wq_push wq client_socket_fd = record {
    size = (wq.size + 1) % 2 ^ 32;
    head = dl.dl_append wq.head client_socket_fd;
  }

  -- The count that the queue keeps is that of its list.
  abbrev pub IsCounted : Wq dl → Type 0
  IsCounted wq = wq.size ≡ length (dl.items wq.head) % 2 ^ 32

  pub init-IsCounted : IsCounted wq_init × (dl.items wq_init.head ≡ [])
  unfolding wq_init
  init-IsCounted = (rw dl.items-empty refl, dl.items-empty)

  pub push-items :
      (wq : Wq dl) (fd : ℕ)
      → IsCounted wq
      → IsCounted (wq_push wq fd) × (dl.items (wq_push wq fd).head ≡ dl.items wq.head ++ fd ∷ [])
  unfolding wq_push
  push-items wq fd h = (
    rw dl.items-append (
        ap (λ (k : ℕ). (k + 1) % 2 ^ 32) h
        ∙ omega (arith, length-append (dl.items wq.head) (fd ∷ []))),
    dl.items-append wq.head fd,
  )

  -- What a call of `wq_pop` does on a queue that is counted.
  pub data Pops (wq : Wq dl) : Popped dl → Type 0 where
    nothing : wq.size ≡ 0 → Pops wq waits
    oldest :
        (fd : ℕ) (rest : List ℕ) (after : Wq dl)
        → 0 < wq.size
        → dl.items wq.head ≡ fd ∷ rest
        → dl.items after.head ≡ rest
        → IsCounted after
        → Pops wq (popped fd after)

  by_head :
      (wq : Wq dl) (queued : List ℕ)
      → dl.items wq.head ≡ queued
      → IsCounted wq
      → (wq.size == 0) ≡ false
      → Pops wq (wq_pop wq)
  unfolding wq_pop
  by_head wq [] e h nz =
      let z : wq.size ≡ 0 = h ∙ rw e refl in absurd (cc ((==_iff wq.size 0).1 z, nz))
  by_head wq (fd ∷ rest) e h nz =
      let count : wq.size ≡ length (fd ∷ rest) % 2 ^ 32 = h ∙ rw e refl in
      let deleted = dl.items-delete wq.head fd rest e in
      let pos : 0 < wq.size = ground arith in
      rw (nz, dl.items-first wq.head fd rest e)
        (oldest fd rest _ pos e deleted (rw (deleted, count) (omega (arith, count, pos))))

  by_items :
      (wq : Wq dl) (queued : List ℕ)
      → dl.items wq.head ≡ queued
      → IsCounted wq
      → Pops wq (wq_pop wq)
  unfolding wq_pop
  by_items wq queued e h = elim (Bool-cases (wq.size == 0)) [
    | inl z ↦ rw z (nothing ((==_iff wq.size 0).0 z))
    | inr nz ↦ by_head wq queued e h nz
  ]

  -- On a queue whose count is right, `wq_pop` never reads through NULL: it waits if the count is 0,
  -- and else it takes the oldest socket and leaves the others, with a right count.
  pub wq_pop-Pops : (wq : Wq dl) → IsCounted wq → Pops wq (wq_pop wq)
  wq_pop-Pops wq h = by_items wq (dl.items wq.head) refl h
