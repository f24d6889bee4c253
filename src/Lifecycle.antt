-- ===== src/Lifecycle.antt =====
-- src/server/lifecycle.rs, with the two tests of src/daemon.rs that it asks: the request to shut down, the
-- manager's heartbeat, and the watchdog. Times are in milliseconds.
pub mod Watchdog
mod Tests
use wsync.Prelude.{
  ℕ, ◌-◌, Bool, true, false, not, ◌&&◌, Option, none, some, Text, codes, text_eq, ltb,
  if◌then◌else◌, unwrap_or,
}

abbrev pub manager_heartbeat_timeout : ℕ
manager_heartbeat_timeout = 300000

abbrev pub heartbeat_suspect_grace : ℕ
heartbeat_suspect_grace = 30000

pub record Lifecycle : Type 0 where
  pub shutdown : Option Text
  pub manager_last_seen : ℕ
  pub managed : Bool

-- The loop of the watchdog has ended once `done` is true.
pub record Watch : Type 0 where
  pub suspect_since : Option ℕ
  pub done : Bool

pub record State : Type 0 where
  pub lifecycle : Lifecycle
  pub watch : Watch

unfoldable pub new_lifecycle : Bool → ℕ → Lifecycle
new_lifecycle managed now = record { shutdown = none; manager_last_seen = now; managed = managed }

-- Only a managed daemon has a watchdog.
unfoldable pub spawn_watchdog : Lifecycle → State
spawn_watchdog l = record {
  lifecycle = l;
  watch = record { suspect_since = none; done = not l.managed };
}

abbrev pub first_reason : Text → Option Text → Option Text
first_reason reason none = some reason
first_reason reason (some r) = some r

unfoldable pub trigger_shutdown : Text → Lifecycle → Lifecycle
trigger_shutdown reason l = record l { shutdown = first_reason reason l.shutdown }

unfoldable pub heartbeat : ℕ → Lifecycle → Lifecycle
heartbeat now l = record l { manager_last_seen = now }

unfoldable pub heartbeat_expired : (last_seen_elapsed timeout : ℕ) → Bool
heartbeat_expired last_seen_elapsed timeout = ltb timeout last_seen_elapsed

abbrev pub is_over : ℕ → Option ℕ → Bool
is_over grace none = false
is_over grace (some elapsed) = ltb grace elapsed

unfoldable pub watchdog_should_terminate :
    (last_seen_elapsed : ℕ) → (suspect_elapsed : Option ℕ) → (timeout grace : ℕ) → Bool
watchdog_should_terminate last_seen_elapsed suspect_elapsed timeout grace =
    heartbeat_expired last_seen_elapsed timeout && is_over grace suspect_elapsed

abbrev pub lost_reason : Text
lost_reason = codes "Manager heartbeat lost (watchdog timeout)"

-- A round of the watchdog's loop.
unfoldable pub tick : ℕ → State → State
tick now s =
    let elapsed = now - s.lifecycle.manager_last_seen in
    let first = unwrap_or s.watch.suspect_since now in
    if s.watch.done
    then s
    else (if not (heartbeat_expired elapsed manager_heartbeat_timeout)
        then (record s { watch = record s.watch { suspect_since = none } })
        else (if watchdog_should_terminate elapsed (some (now - first)) manager_heartbeat_timeout
              heartbeat_suspect_grace
            then (record {
              lifecycle = trigger_shutdown lost_reason s.lifecycle;
              watch = record { suspect_since = some first; done = true };
            })
            else (record s { watch = record s.watch { suspect_since = some first } })))

-- The body of a control request: none, no JSON, or JSON with or without a token.
pub data ControlBody : Type 0 where
  empty unreadable : ControlBody
  control : (token : Option Text) → ControlBody

pub data Refusal : Type 0 where
  not_managed unreadable_body missing_token invalid_token : Refusal

abbrev pub check_token : Text → Option Text → Option Refusal
check_token expected none = some missing_token
check_token expected (some token) = if text_eq token expected then none else some invalid_token

abbrev pub check_body : Text → ControlBody → Option Refusal
check_body expected empty = check_token expected none
check_body expected unreadable = some unreadable_body
check_body expected (control token) = check_token expected token

unfoldable pub refusal : (control_token : Option Text) → ControlBody → Option Refusal
refusal none body = some not_managed
refusal (some expected) body = check_body expected body

unfoldable pub heartbeat_route :
    (control_token : Option Text) → ControlBody → ℕ → Lifecycle → Lifecycle × Option Refusal
heartbeat_route control_token body now l = elim (refusal control_token body) [
  | some r ↦ (l, some r)
  | none ↦ (heartbeat now l, none)
]

unfoldable pub close_route :
    (control_token : Option Text) → ControlBody → Lifecycle → Lifecycle × Option Refusal
close_route control_token body l = elim (refusal control_token body) [
  | some r ↦ (l, some r)
  | none ↦ (trigger_shutdown (codes "Manager requested close") l, none)
]
