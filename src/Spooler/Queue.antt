-- ===== src/Spooler/Queue.antt =====
-- What a spooler promises, whatever the representation: a queue of at most `n` strings.
use operating_systems_and_sy.Prelude.{
  ℕ, Option, none, some, List, [], ◌∷◌, ◌++◌, length, ◌==◌, if◌then◌else◌,
}

module _ {ℓ} {A : Type ℓ} where
  -- Insertion into a full queue changes nothing.
  unfoldable pub insert : ℕ → List A → A → List A
  insert n q a = if length q == n then q else q ++ a ∷ []

  -- The oldest string, or `none` from an empty queue.
  unfoldable pub remove : List A → List A × Option A
  remove [] = ([], none)
  remove (a ∷ q) = (q, some a)
