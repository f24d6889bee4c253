-- ===== src/CrashGuard.antt =====
-- src/server/crash_guard.rs: the marker of a connect that is being applied, and safe mode. Every
-- write and every removal of a file is given its outcome, since the code goes on when one fails.
pub mod Survival
mod Tests
use wsync.Prelude.{
  ℕ, ◌+◌, Bool, true, false, Option, none, some, List, [], ◌∷◌, Text, ◌==◌, if◌then◌else◌, is_some,
}

pub record Marker : Type 0 where
  pub boot_id : Text
  pub pid : ℕ
  pub started_at : ℕ

pub record SafeMode : Type 0 where
  pub crashed_connect_started_at : ℕ
  pub previous_pid : ℕ
  pub previous_boot_id : Text
  pub report : Option Text

-- What is at the marker's path: nothing, a text that is no marker, or a marker's JSON text.
pub data MarkerFile : Type 0 where
  absent unreadable : MarkerFile
  holds : Marker → MarkerFile

-- `fs::write` after `create_dir_all`; a failure may leave anything.
pub data Written : Type 0 where
  wrote : Written
  failed : (left : MarkerFile) → Written

-- What the process keeps, without the paths.
pub record CrashGuard : Type 0 where
  pub boot_id : Text
  pub safe_mode : Option SafeMode
  pub generation : ℕ

-- The process and the file that outlives it.
pub record State : Type 0 where
  pub guard : CrashGuard
  pub marker : MarkerFile

abbrev pub previous : Marker → SafeMode
previous m = record {
  crashed_connect_started_at = m.started_at;
  previous_pid = m.pid;
  previous_boot_id = m.boot_id;
  report = none;
}

abbrev pub read_marker : MarkerFile → Option SafeMode
read_marker absent = none
read_marker unreadable = none
read_marker (holds m) = some (previous m)

unfoldable pub load : Text → MarkerFile → State
load boot_id file = record {
  guard = record { boot_id = boot_id; safe_mode = read_marker file; generation = 0 };
  marker = file;
}

-- `fs::remove_file(..).ok()`
abbrev pub remove_marker : Bool → MarkerFile → MarkerFile
remove_marker removed file = if removed then absent else file

unfoldable pub resume : Bool → State → State × Bool
resume removed s = (
  record { guard = record s.guard { safe_mode = none }; marker = remove_marker removed s.marker },
  is_some s.guard.safe_mode,
)

abbrev pub write_marker : Written → Marker → MarkerFile
write_marker wrote m = holds m
write_marker (failed left) m = left

unfoldable pub begin : (pid now : ℕ) → Written → State → State × ℕ
begin pid now written s = (
  record {
    guard = record s.guard { generation = s.guard.generation + 1 };
    marker =
        write_marker written (record { boot_id = s.guard.boot_id; pid = pid; started_at = now });
  },
  s.guard.generation + 1,
)

-- The test of `clear_if_current`, which holds the lock, and the removal, which does not.
unfoldable pub is_current : ℕ → State → Bool
is_current generation s = s.guard.generation == generation

unfoldable pub clear : Bool → State → State
clear removed s = record s { marker = remove_marker removed s.marker }

unfoldable pub clear_if_current : ℕ → Bool → State → State
clear_if_current generation removed s = if is_current generation s then clear removed s else s

unfoldable pub on_shutdown : Bool → State → State
on_shutdown removed s = clear removed s

abbrev pub reported : Text → Option SafeMode → Option SafeMode
reported path none = none
reported path (some m) = some (record m { report = some path })

unfoldable pub write_report : (path : Text) → (written : Bool) → State → State × Option Text
write_report path written s =
    if written
    then (
      record s { guard = record s.guard { safe_mode = reported path s.guard.safe_mode } },
      some path,
    )
    else (s, none)
