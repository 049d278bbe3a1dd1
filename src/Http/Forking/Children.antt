-- ===== src/Http/Forking/Children.antt =====
-- The children of the server, running and ended, and the sockets that each process holds.
use operating_systems_and_sy.Prelude.{
  ℕ, ◌+◌, ◌≡◌, ◌≤◌, refl, ap, Option, List, [], ◌∷◌, ◌++◌, length, length-append, arith,
}
use operating_systems_and_sy.Http.Forking.{
  Place, accepting, forking, closing, waiting, reaping, Child, State, without, Reaped, nobody, one,
  Waited, own, any, Step, accept, fork_made, fork_failed, close_socket, wait_own, wait_any,
  child_ends, Reach, here, step,
}

-- What the server has open at a place, and how many children there are beyond those that may run.
unfoldable pub at_place : Place → List ℕ
at_place accepting = []
at_place (forking fd) = fd ∷ []
at_place (closing cpid fd) = fd ∷ []
at_place (waiting cpid) = []
at_place reaping = []

unfoldable pub extra : Place → ℕ
extra accepting = 0
extra (forking fd) = 0
extra (closing cpid fd) = 1
extra (waiting cpid) = 1
extra reaping = 1

-- Each child has its own client's socket open and no other.
abbrev pub AllOwn : List Child → Type 0
AllOwn [] = Unit {0}
AllOwn (c ∷ cs) = (c.has_open ≡ c.serves ∷ []) × AllOwn cs

AllOwn-left :
    (before : List Child) (c : Child) (after : List Child)
    → AllOwn (before ++ c ∷ after)
    → AllOwn (before ++ after)
AllOwn-left [] c after h = h.1
AllOwn-left (b ∷ before) c after h = (h.0, AllOwn-left before c after h.1)

without_le : (n : ℕ) (ms : List ℕ) → length (without n ms) ≤ length ms
unfolding without
without_le n [] = omega arith
without_le n (m ∷ ms) = ground (arith, without_le n ms)

record Inv (k : ℕ) (s : State) : Type 0 where
  pub sockets : s.sockets ≡ at_place s.place
  pub children : length s.running + length s.zombies ≤ k + extra s.place
  pub may_run : length s.running ≤ k
  pub owned : AllOwn s.running

abbrev size : List ℕ → ℕ
size l = length l

one_less :
    {zombies left : List ℕ} (before : List ℕ) (pid : ℕ) (after : List ℕ)
    → zombies ≡ before ++ pid ∷ after
    → left ≡ before ++ after
    → length zombies ≡ length left + 1
one_less before pid after e f =
    omega
      (arith, ap size e, ap size f, length-append before (pid ∷ after), length-append before after)

-- A `waitpid` for any child leaves room for the child that was made.
Reaped-room :
    {r k : ℕ} {zombies left : List ℕ}
    → Reaped zombies left
    → r ≤ k
    → r + length zombies ≤ k + 1
    → r + length left ≤ k
Reaped-room (nobody e f) few h = omega (arith, ap size f)
Reaped-room (one before pid after e f) few h = omega (arith, one_less before pid after e f)

Waited-le :
    {cpid : Option ℕ} {zombies left : List ℕ}
    → Waited zombies left cpid
    → length left ≤ length zombies
Waited-le {zombies = zombies} (own pid e) = omega (arith, ap size e, without_le pid zombies)
Waited-le (any (nobody e f)) = omega (arith, ap size f)
Waited-le (any (one before pid after e f)) = omega (arith, one_less before pid after e f)

step-Inv : {k : ℕ} {s t : State} → Inv k s → Step s t → length t.running ≤ k → Inv k t
unfolding at_place extra without
step-Inv {k} {s} inv (accept fd e) few = record {
  sockets = ap (λ (l : List ℕ). fd ∷ l) (rw e at inv.sockets);
  children = rw e at inv.children;
  may_run = few;
  owned = inv.owned;
}
step-Inv {k} {s} inv (fork_made {fd} pid e) few = record {
  sockets = rw e at inv.sockets;
  children = (let c = rw e at inv.children in omega (arith, c));
  may_run = few;
  owned = (rw e at inv.sockets, inv.owned);
}
step-Inv {k} {s} inv (fork_failed {fd} e) few = record {
  sockets = rw e at inv.sockets;
  children = (let c = rw e at inv.children in omega (arith, c));
  may_run = few;
  owned = inv.owned;
}
step-Inv {k} {s} inv (close_socket {cpid} {fd} e) few = record {
  sockets = (let o = rw e at inv.sockets in rw o (ground arith));
  children = rw e at inv.children;
  may_run = few;
  owned = inv.owned;
}
step-Inv {k} {s} inv (wait_own {cpid} e w) few = record {
  sockets = rw e at inv.sockets;
  children = (let c = rw e at inv.children in omega (arith, c, Waited-le w));
  may_run = few;
  owned = inv.owned;
}
step-Inv {k} {s} inv (wait_any e r) few = record {
  sockets = rw e at inv.sockets;
  children = (let c = rw e at inv.children in omega (arith, Reaped-room r few c));
  may_run = few;
  owned = inv.owned;
}
step-Inv {k} {s} inv (child_ends before c after e) few = record {
  sockets = inv.sockets;
  children = omega (
    arith,
    inv.children,
    ap (λ (l : List Child). length l) e,
    length-append before (c ∷ after),
    length-append before after,
  );
  may_run = few;
  owned = AllOwn-left before c after (rw e at inv.owned);
}

Reach-Inv : {k : ℕ} {s : State} → Reach k s → Inv k s
unfolding at_place extra
Reach-Inv here = record {
  sockets = refl;
  children = omega arith;
  may_run = omega arith;
  owned = tt;
}
Reach-Inv (step r st few) = step-Inv (Reach-Inv r) st few

extra_le : (p : Place) → extra p ≤ 1
unfolding extra
extra_le p = ground arith

-- While at most `k` children run at a time, the children that run and those that have ended but are not
-- waited for are at most `k + 1` together, however many clients there have been, and at most `k` when the
-- server calls `accept`; the server then has no client's socket open, and each child that runs has its
-- own client's socket open and no other.
pub few_children :
    (k : ℕ) {s : State}
    → Reach k s
    → (length s.running + length s.zombies ≤ k + 1)
      × (s.place ≡ accepting → (length s.running + length s.zombies ≤ k) × (s.sockets ≡ []))
      × AllOwn s.running
unfolding at_place extra
few_children k {s} r =
    let inv = Reach-Inv r in
    (
      omega (arith, inv.children, extra_le s.place),
      λ e.
          let few = rw e at inv.children in
          let none_open = rw e at inv.sockets in (omega (arith, few), none_open),
      inv.owned,
    )
