-- ===== src/Shell/Process/Pwd.antt =====
-- `cmd_pwd` ends for every directory that exists.
use operating_systems_and_sy.Prelude.{
  ℕ, zero, suc, ◌+◌, ◌*◌, ◌%◌, ◌^◌, ◌<◌, ◌≤◌, ◌≡◌, refl, Option, none, some, [], ◌∷◌, ◌++◌, length,
  arith, dec_lt,
}
use operating_systems_and_sy.CLib.{Text}
use operating_systems_and_sy.Shell.Process.{pwd_loop, cmd_pwd}

-- `getcwd` as documented, in the directory `cwd`: it needs a byte for the NUL.
pub record Getcwd (getcwd : ℕ → Option Text) (cwd : Text) : Type 0 where
  pub fits : (len : ℕ) → length cwd < len → getcwd len ≡ some cwd
  pub refuses : (len : ℕ) → len ≤ length cwd → getcwd len ≡ none

pwd_loop-ends :
    (getcwd : ℕ → Option Text) (cwd : Text) (fuel len : ℕ)
    → Getcwd getcwd cwd
    → length cwd < 2 ^ 30
    → 0 < len
    → length cwd < len + fuel
    → pwd_loop getcwd (suc fuel) len ≡ some (cwd ++ 10 ∷ [])
unfolding pwd_loop
pwd_loop-ends getcwd cwd zero len g small pos enough = rw (g.fits len (omega arith), pwd_loop) refl
pwd_loop-ends getcwd cwd (suc fuel) len g small pos enough = elim (dec_lt (length cwd) len) [
  | yes p ↦ rw (g.fits len p, pwd_loop) refl
  | no p ↦
      let twice : len * 2 % 2 ^ 32 ≡ len * 2 = omega arith in
      rw (g.refuses len (omega arith), pwd_loop)
        (pwd_loop-ends getcwd cwd fuel (len * 2 % 2 ^ 32) g small (omega (arith, twice))
          (omega (arith, twice)))
]

-- In a directory whose name has less than 2^30 characters, `cmd_pwd` prints that name and ends, after
-- no more calls of `getcwd` than the name has characters, and one.
pub cmd_pwd-ends :
    (getcwd : ℕ → Option Text) (cwd : Text)
    → Getcwd getcwd cwd
    → length cwd < 2 ^ 30
    → cmd_pwd getcwd (suc (length cwd)) ≡ some (cwd ++ 10 ∷ [])
unfolding cmd_pwd
cmd_pwd-ends getcwd cwd g small =
    pwd_loop-ends getcwd cwd (length cwd) 20 g small (omega arith) (omega arith)
