-- ===== src/Http/Forking/Tests.antt =====
-- Two clients; the child of the first has ended before the second is accepted.
use operating_systems_and_sy.Prelude.{◌+◌, ◌≡◌, ◌≤◌, refl, [], length, arith}
use operating_systems_and_sy.Http.Forking.{
  State, accepting, without, nobody, one, own, accept, fork_made, close_socket, wait_own, wait_any,
  child_ends, Reach, here, step,
}
use operating_systems_and_sy.Http.Forking.Children.{AllOwn, few_children}

two_served : (s : State) × Reach 1 s × (s.place ≡ accepting)
unfolding without
two_served = (
  _,
  step
      (step
        (step
          (step
            (step
              (step
                (step
                  (step
                    (step
                      (step
                        (step (step here (accept 4 refl) (omega arith)) (fork_made 50 refl)
                          (omega arith))
                        (close_socket refl) (omega arith))
                      (wait_own refl (own 50 refl)) (omega arith))
                    (wait_any refl (nobody refl refl)) (omega arith))
                  (child_ends [] _ [] refl) (omega arith))
                (accept 4 refl) (omega arith))
              (fork_made 51 refl) (omega arith))
            (close_socket refl) (omega arith))
          (wait_own refl (own 51 refl)) (omega arith))
        (wait_any refl (one [] 50 [] refl refl)) (omega arith))
      (child_ends [] _ [] refl) (omega arith),
  refl,
)

few_children_example :
    (length two_served.0.running + length two_served.0.zombies ≤ 2)
    × (two_served.0.place ≡ accepting
        → (length two_served.0.running + length two_served.0.zombies ≤ 1)
          × (two_served.0.sockets ≡ []))
    × AllOwn two_served.0.running
few_children_example = few_children 1 two_served.1
