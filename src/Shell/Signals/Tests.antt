-- ===== src/Shell/Signals/Tests.antt =====
-- SIGINT and SIGKILL.
use operating_systems_and_sy.Prelude.{◌≡◌, refl}
use operating_systems_and_sy.Shell.Signals.{
  Signals, ignored, caught, is_fixed, signal, signal_all, ignore_signal,
}

abbrev before : Signals
before s = caught

interrupt_ignored : ignore_signal before 2 ≡ ignored
unfolding ignore_signal signal_all signal is_fixed
interrupt_ignored = refl

kill_kept : ignore_signal before 9 ≡ caught
unfolding ignore_signal signal_all signal is_fixed
kill_kept = refl
