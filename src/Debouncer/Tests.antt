-- ===== src/Debouncer/Tests.antt =====
-- A batch that arrives during a write, with the echo of the write and an edit of another file.
use wsync.Prelude.{ℕ, ◌+◌, ◌≡◌, refl, sym, subst, Bool, true, false, List, [], ◌∷◌, length}
use wsync.Debouncer.{
  FilePath, path_eq, VfsEvent, create, delete, write, event_path, closed_write, new_debouncer,
  release_held, is_echo, handle_each, debounce, note_self_write, pause, resume, release_each,
}
use wsync.Debouncer.Run.{
  notes, arrives, releases, run, arrivals, is_noted, count, pauses, resumes, Op,
}
use wsync.Debouncer.Echoes.{path_eq-same}
use wsync.Debouncer.Conservation.{run-conserves}

abbrev written_file : FilePath
written_file = (b'a' ∷ []) ∷ (b's' ∷ []) ∷ []

abbrev edited_file : FilePath
edited_file = (b'b' ∷ []) ∷ (b's' ∷ []) ∷ []

abbrev edits : VfsEvent → Bool
edits (write p) = path_eq p edited_file
edits _ = false

abbrev write_window : List Op
write_window =
    pauses 1000
    ∷ notes written_file 1100
    ∷ arrives true (
        record { kind = closed_write; path = written_file; time = 90000 }
        ∷ record { kind = closed_write; path = edited_file; time = 90001 }
        ∷ [])
    ∷ resumes 100000
    ∷ releases 500000
    ∷ []

the_edit_arrives : (run write_window (new_debouncer 0)).sent ≡ write edited_file ∷ []
unfolding new_debouncer release_held release_each resume handle_each debounce note_self_write pause
    is_echo
the_edit_arrives = refl

edits_foreign : (e : VfsEvent) → edits e ≡ true → is_noted write_window (event_path e) ≡ false
edits_foreign (write p) h =
    let same : p ≡ edited_file = path_eq-same p edited_file h in
    subst (λ q. is_noted write_window q ≡ false) (sym same) refl
edits_foreign (create p) h = absurd (cc)
edits_foreign (delete p) h = absurd (cc)

run-conserves_example :
    (length (arrivals write_window (new_debouncer 0).context) ≡ (
      let d = run write_window (new_debouncer 0) in
      length d.sent + length d.held.events + d.suppressed))
    × (count edits (arrivals write_window (new_debouncer 0).context) ≡ (
        let d = run write_window (new_debouncer 0) in
        count edits d.sent + count edits d.held.events))
    × ((now : ℕ) → (release_held now (run write_window (new_debouncer 0))).held.events ≡ [])
run-conserves_example = run-conserves write_window 0 edits edits_foreign
