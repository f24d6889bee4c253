-- ===== src/CrashGuard/Tests.antt =====
-- Lives of a daemon with two connects, and the race of a settle with a new connect.
use wsync.Prelude.{◌≡◌, refl, true, none, some, [], ◌∷◌, codes}
use wsync.CrashGuard.{
  SafeMode, wrote, absent, State, load, begin, clear, clear_if_current, is_current,
}
use wsync.CrashGuard.Survival.{begins, fires, run, load-safe_mode, clear_races}

abbrev booted : State
booted = load (codes "one") absent

abbrev crashed : SafeMode
crashed = record {
  crashed_connect_started_at = 40;
  previous_pid = 7;
  previous_boot_id = codes "one";
  report = none;
}

-- The first connect settles while the second is being applied, and the daemon dies.
load-safe_mode_example :
    (load
      (codes "two")
      (run
        (begins 7 10 wrote ∷ begins 7 40 wrote ∷ fires 1 true ∷ [])
        booted).marker).guard.safe_mode
    ≡ some crashed
unfolding load
load-safe_mode_example =
    load-safe_mode (begins 7 10 wrote ∷ []) (fires 1 true ∷ []) 7 40 booted (codes "two") refl refl

abbrev applying : State
applying = (begin 7 10 wrote booted).0

clear_races_example :
    (is_current 1 applying ≡ true)
    × ((load (codes "two") (clear true (begin 7 40 wrote applying).0).marker).guard.safe_mode
        ≡ none)
    × ((load
          (codes "two")
          (begin 7 40 wrote (clear_if_current 1 true applying)).0.marker).guard.safe_mode
        ≡ some crashed)
    × ((load
          (codes "two")
          (clear_if_current 1 true (begin 7 40 wrote applying).0).marker).guard.safe_mode
        ≡ some crashed)
unfolding load begin
clear_races_example = clear_races 7 40 applying (codes "two")
