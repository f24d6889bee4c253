-- ===== src/Debouncer/Run.antt =====
-- Runs of src/vfs/debouncer.rs, and the events that arrive in them. The threads meet in any order: each test of
-- the pause state is made before the lock on the held events is taken, so a run takes the steps behind
-- the tests, whichever way the tests went.
use wsync.Prelude.{
  ℕ, suc, Bool, false, ◌||◌, Option, none, some, List, [], ◌∷◌, ◌++◌, any, if◌then◌else◌,
}
use wsync.Debouncer.{
  FilePath, path_eq, ancestors, VfsEvent, DebouncedEvent, DebounceContext, debounce, VfsDebouncer,
  pause, resume, note_self_write, handle_each, release_held,
}

pub data Op : Type 0 where
  pauses resumes : (now : ℕ) → Op
  notes : FilePath → (now : ℕ) → Op
  arrives : (writing : Bool) → List DebouncedEvent → Op
  releases : (now : ℕ) → Op

abbrev pub step : Op → VfsDebouncer → VfsDebouncer
step (pauses now) d = pause now d
step (resumes now) d = resume now d
step (notes p now) d = note_self_write p now d
step (arrives writing es) d = handle_each writing es d
step (releases now) d = release_held now d

abbrev pub run : List Op → VfsDebouncer → VfsDebouncer
run [] d = d
run (o ∷ os) d = run os (step o d)

abbrev pub cons_event : Option VfsEvent → List VfsEvent → List VfsEvent
cons_event none es = es
cons_event (some e) es = e ∷ es

-- What the translation makes of a batch, and the context it leaves.
abbrev pub translated : List DebouncedEvent → DebounceContext → List VfsEvent
translated [] c = []
translated (e ∷ es) c = let r = debounce e c in cons_event r.0 (translated es r.1)

abbrev pub context_after : List DebouncedEvent → DebounceContext → DebounceContext
context_after [] c = c
context_after (e ∷ es) c = context_after es (debounce e c).1

-- The events of all batches, translated.
abbrev pub arrivals : List Op → DebounceContext → List VfsEvent
arrivals [] c = []
arrivals (pauses now ∷ os) c = arrivals os c
arrivals (resumes now ∷ os) c = arrivals os c
arrivals (notes p now ∷ os) c = arrivals os c
arrivals (arrives writing es ∷ os) c = translated es c ++ arrivals os (context_after es c)
arrivals (releases now ∷ os) c = arrivals os c

-- The processor wrote the path, or something above it, in the run.
abbrev pub is_noted : List Op → FilePath → Bool
is_noted [] q = false
is_noted (pauses now ∷ os) q = is_noted os q
is_noted (resumes now ∷ os) q = is_noted os q
is_noted (notes p now ∷ os) q = any (path_eq p) (ancestors q) || is_noted os q
is_noted (arrives writing es ∷ os) q = is_noted os q
is_noted (releases now ∷ os) q = is_noted os q

abbrev pub count : (VfsEvent → Bool) → List VfsEvent → ℕ
count f [] = 0
count f (e ∷ es) = let rest = count f es in if f e then suc rest else rest
