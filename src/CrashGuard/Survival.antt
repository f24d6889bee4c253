-- ===== src/CrashGuard/Survival.antt =====
-- src/server/crash_guard.rs over the life of a daemon: which deaths put the next one in safe mode.
use wsync.Prelude.{
  ℕ, ◌+◌, ◌≡◌, refl, ap, ◌∙◌, Bool, true, false, Option, none, some, List, [], ◌∷◌, ◌++◌, Text, all,
  any, ◌==◌, ==_refl, if◌then◌else◌, Bool-cases, inl, inr, arith,
}
use wsync.CrashGuard.{
  SafeMode, Written, wrote, absent, State, load, read_marker, resume, begin, is_current, clear,
  clear_if_current, on_shutdown, write_report,
}

-- What happens to a running daemon; the timer of a connect's `settle` carries its generation.
pub data Event : Type 0 where
  begins : (pid now : ℕ) → Written → Event
  fires : (generation : ℕ) → (removed : Bool) → Event
  resumes shuts_down : (removed : Bool) → Event
  reports : Text → Bool → Event

abbrev pub step : Event → State → State
step (begins pid now w) s = (begin pid now w s).0
step (fires generation removed) s = clear_if_current generation removed s
step (resumes removed) s = (resume removed s).0
step (shuts_down removed) s = on_shutdown removed s
step (reports path written) s = (write_report path written s).0

abbrev pub run : List Event → State → State
run [] s = s
run (e ∷ es) s = run es (step e s)

abbrev pub is_begin : Event → Bool
is_begin (begins pid now w) = true
is_begin _ = false

-- How many connects began.
abbrev pub connects : List Event → ℕ
connects [] = 0
connects (e ∷ es) = if is_begin e then 1 + connects es else connects es

-- Whether an event ends the risk of the connect of a generation.
abbrev pub ends : ℕ → Event → Bool
ends g (begins pid now w) = false
ends g (fires generation removed) = g == generation
ends g (resumes removed) = true
ends g (shuts_down removed) = true
ends g (reports path written) = false

-- The file that the event is to remove could be removed.
abbrev pub succeeds : Event → Bool
succeeds (begins pid now w) = true
succeeds (fires generation removed) = removed
succeeds (resumes removed) = removed
succeeds (shuts_down removed) = removed
succeeds (reports path written) = true

run-append : (es fs : List Event) (s : State) → run (es ++ fs) s ≡ run fs (run es s)
run-append [] fs s = refl
run-append (e ∷ es) fs s = run-append es fs (step e s)

step-generation :
    (e : Event) (s : State)
    → (step e s).guard.generation ≡ s.guard.generation + (if is_begin e then 1 else 0)
unfolding begin clear_if_current clear resume on_shutdown write_report
step-generation (begins pid now w) s = refl
step-generation (fires generation removed) s = ground arith
step-generation (resumes removed) s = ground arith
step-generation (shuts_down removed) s = ground arith
step-generation (reports path written) s = ground arith

step-boot_id : (e : Event) (s : State) → (step e s).guard.boot_id ≡ s.guard.boot_id
unfolding begin clear_if_current clear resume on_shutdown write_report
step-boot_id (begins pid now w) s = refl
step-boot_id (fires generation removed) s = ground arith
step-boot_id (resumes removed) s = refl
step-boot_id (shuts_down removed) s = refl
step-boot_id (reports path written) s = ground arith

run-generation :
    (es : List Event) (s : State) → (run es s).guard.generation ≡ s.guard.generation + connects es
run-generation [] s = ground arith
run-generation (e ∷ es) s = ground (arith, run-generation es (step e s), step-generation e s)

run-boot_id : (es : List Event) (s : State) → (run es s).guard.boot_id ≡ s.guard.boot_id
run-boot_id [] s = refl
run-boot_id (e ∷ es) s = run-boot_id es (step e s) ∙ step-boot_id e s

-- An event that begins no connect leaves the marker, or removes it where it ends the risk.
step-marker :
    (e : Event) (s : State)
    → is_begin e ≡ false
    → succeeds e ≡ true
    → (step e s).marker ≡ (if ends s.guard.generation e then absent else s.marker)
unfolding is_current clear_if_current clear resume on_shutdown write_report
step-marker (begins pid now w) s n k = absurd (cc)
step-marker (fires generation removed) s n k = ground arith
step-marker (resumes removed) s n k = ground arith
step-marker (shuts_down removed) s n k = ground arith
step-marker (reports path written) s n k = ground arith

run-marker :
    (es : List Event) (s : State)
    → any is_begin es ≡ false
    → all succeeds es ≡ true
    → (run es s).marker ≡ (if any (ends s.guard.generation) es then absent else s.marker)
run-marker [] s n k = refl
run-marker (e ∷ es) s n k =
    let quiet : is_begin e ≡ false = ground (arith, n) in
    let ok : succeeds e ≡ true = ground (arith, k) in
    let same : (step e s).guard.generation ≡ s.guard.generation =
      step-generation e s ∙ rw quiet (omega arith) in
    let rest = run-marker es (step e s) (ground (arith, n)) (ground (arith, k)) in
    ground (arith, rest, same, step-marker e s quiet ok)

-- What the next daemon makes of a death after the last connect, `begins pid now wrote`, and of the
-- events `es` after it.
abbrev pub verdict : Text → (pid now generation : ℕ) → List Event → Option SafeMode
verdict boot_id pid now generation es =
    if any (ends generation) es
    then none
    else some (record {
      crashed_connect_started_at = now;
      previous_pid = pid;
      previous_boot_id = boot_id;
      report = none;
    })

last_connect :
    (after : List Event) (pid now : ℕ) (t : State)
    → any is_begin after ≡ false
    → all succeeds after ≡ true
    → read_marker (run after (begin pid now wrote t).0).marker
      ≡ verdict t.guard.boot_id pid now (t.guard.generation + 1) after
unfolding begin
last_connect after pid now t n k =
    let u = (begin pid now wrote t).0 in
    elim (Bool-cases (any (ends (t.guard.generation + 1)) after)) [
      | inl e ↦ ap read_marker (run-marker after u n k) ∙ rw e refl
      | inr e ↦ ap read_marker (run-marker after u n k) ∙ rw e refl
    ]

-- Take any life of a daemon that was started under some boot id, whatever happened in it, and in it
-- the last connect, whose marker was written, with the removals after it successful. The next daemon
-- starts in safe mode, naming this connect's daemon and time, exactly where the daemon died with no
-- resume, no graceful shutdown and no settle of this very connect after the connect began; the
-- settling of an earlier connect does not count.
pub load-safe_mode :
    (before after : List Event) (pid now : ℕ) (s : State) (next : Text)
    → any is_begin after ≡ false
    → all succeeds after ≡ true
    → (load next (run (before ++ begins pid now wrote ∷ after) s).marker).guard.safe_mode
      ≡ verdict s.guard.boot_id pid now (s.guard.generation + connects before + 1) after
unfolding load
load-safe_mode before after pid now s next n k =
    let t : State = run before s in
    ap (λ (u : State). read_marker u.marker) (run-append before (begins pid now wrote ∷ after) s)
    ∙ last_connect after pid now t n k
    ∙ ap (λ (b : Text). verdict b pid now (t.guard.generation + 1) after) (run-boot_id before s)
    ∙ ap (λ (g : ℕ). verdict s.guard.boot_id pid now (g + 1) after) (run-generation before s)

-- The settle of the latest connect checks that no newer connect has begun, releases the lock and then
-- removes the marker. Where a new connect begins between the two, its marker, just written, is removed:
-- a daemon that dies while it applies this connect leaves no trace, and the next one starts without
-- safe mode. Where the connect begins after the settle or before it, the next daemon starts in safe
-- mode, naming this connect's daemon and time.
pub clear_races :
    (pid now : ℕ) (s : State) (next : Text)
    → let g = s.guard.generation in
      (is_current g s ≡ true)
      × ((load next (clear true (begin pid now wrote s).0).marker).guard.safe_mode ≡ none)
      × ((load next (begin pid now wrote (clear_if_current g true s)).0.marker).guard.safe_mode
          ≡ verdict s.guard.boot_id pid now (g + 1) [])
      × ((load next (clear_if_current g true (begin pid now wrote s).0).marker).guard.safe_mode
          ≡ verdict s.guard.boot_id pid now (g + 1) [])
unfolding load clear clear_if_current begin is_current
clear_races pid now s next =
    let g : ℕ = s.guard.generation in
    let newer : (g + 1 == g) ≡ false = ground arith in
    (==_refl g, refl, rw (==_refl g) refl, rw newer refl)
