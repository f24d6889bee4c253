-- ===== src/Divergence/Pending.antt =====
-- The pending set over every sequence of requests.
use wsync.Prelude.{
  ℕ, ◌≡◌, refl, Bool, true, false, Option, none, some, List, [], ◌∷◌, Text, inl, inr, ltb, text_eq,
  ◌==◌, ◌++◌, unwrap_or, Bool-cases, Option-cases, arith, length,
}
use wsync.Scope.{Scope, RefParser}
use wsync.SyncBase.{Place}
use wsync.SyncBase.Session
use wsync.Conflict.Content.{Codec}
use wsync.Conflict.State.{EngineState}
use wsync.Divergence.{Upload, CompareRequest, Entry, invalidate, new_inner}
use wsync.Divergence.Compare.{
  TreeView, ServerState, Checked, fine, wrong, compare, ingest_checked, ingest_chunk,
  ingest_started, accept, commit_upload, set_upload, drop_for_restart, read_entries, first_upload,
  compare_body_max_bytes, compare_chunk_max_entries,
}
use wsync.Divergence.Choice.{
  SelectionRequest, choice_get, choice_selection, choice_post, selection_body_max_bytes,
  parse_choice,
}

-- A request, or a plugin that goes away.
pub data Op : Type 0 where
  compares : Scope → TreeView → ℕ → Option CompareRequest → Op
  invalidates : Op
  selects : ℕ → Option SelectionRequest → Op
  chooses : (choice_id choice mode : Option Text) → Op

module _ {c : Codec} (parse : RefParser) where
  unfoldable pub step : Op → ServerState c → ServerState c
  step (Op.compares scope t body request) s = (compare parse scope t body request s).0
  step Op.invalidates s = record s { divergence = invalidate s.divergence }
  step (Op.selects body request) s = record s {
    divergence = (choice_selection body request s.divergence).0;
  }
  step (Op.chooses choice_id choice mode) s = record s {
    divergence = (choice_post choice_id choice mode s.divergence).0;
  }

  unfoldable pub run : List Op → ServerState c → ServerState c
  run [] s = s
  run (o ∷ os) s = run os (step o s)

selection-NoSet :
    (body : ℕ) (request : Option SelectionRequest) (o : Option Upload)
    → (choice_selection body request (record { upload = o; set = none })).0.set ≡ none
unfolding choice_selection
selection-NoSet body none o = elim (Bool-cases (ltb selection_body_max_bytes body)) [
  | inl e ↦ rw e refl
  | inr e ↦ rw e refl
]
selection-NoSet body (some r) o = ground arith

choice-NoSet :
    (choice_id choice mode : Option Text) (o : Option Upload)
    → (choice_post choice_id choice mode (record { upload = o; set = none })).0.set ≡ none
unfolding choice_post
choice-NoSet choice_id choice mode o = elim (Option-cases (parse_choice (unwrap_or choice []))) [
  | inl e ↦ rw (choice_post, e) refl
  | inr (k, e) ↦ rw (choice_post, e) refl
]

module _ {c : Codec} where
  abbrev NoSet : ServerState c → Type 0
  NoSet s = s.divergence.set ≡ none

  commit_upload-NoSet :
      (t : TreeView) (n next : ℕ) (name : Text) (xs : List Entry) (p : Option Place)
      (s : ServerState c)
      → NoSet s
      → NoSet
          (commit_upload t n
            (record { submission_id = name; next_chunk = next; entries = xs; place = p })
            s).0
  unfolding commit_upload
  commit_upload-NoSet t n next name [] p s h = h
  commit_upload-NoSet t n next name (x ∷ xs) p s h = h

  accept-NoSet :
      (t : TreeView) (request : CompareRequest) (es : List Entry) (u : Upload) (s : ServerState c)
      → NoSet s
      → NoSet (accept t request es u s).0
  unfolding accept set_upload
  accept-NoSet t request es u s h = elim (Bool-cases request.final_chunk) [
    | inl e ↦ rw e (commit_upload-NoSet t _ _ _ (u.entries ++ es) _ (set_upload none s) h)
    | inr e ↦ rw e h
  ]

  started-NoSet :
      (t : TreeView) (request : CompareRequest) (es : List Entry) (o : Option Upload)
      (b : Session.Inner) (k : EngineState c)
      → NoSet
          (ingest_started t request es (record {
            divergence = record { upload = o; set = none };
            sync_base = b;
            conflicts = k;
          })).0
  unfolding ingest_started
  started-NoSet t request es none b k = elim (Bool-cases (request.chunk_index == 0)) [
    | inl e ↦ rw e (accept-NoSet t request es (first_upload request) _ refl)
    | inr e ↦ rw e refl
  ]
  started-NoSet t request es (some u) b k =
      elim (Bool-cases (text_eq u.submission_id request.submission_id)) [
        | inl n ↦ elim (Bool-cases (request.chunk_index == u.next_chunk)) [
          | inl e ↦ rw (n, e) (accept-NoSet t request es u _ refl)
          | inr e ↦ rw (n, e) refl
        ]
        | inr n ↦ rw n refl
      ]

  ingest_chunk-NoSet :
      (t : TreeView) (request : CompareRequest) (es : List Entry) (o : Option Upload)
      (b : Session.Inner) (k : EngineState c) (restart : Bool)
      → NoSet
          (ingest_started t request es (
            drop_for_restart restart (record {
              divergence = record { upload = o; set = none };
              sync_base = b;
              conflicts = k;
            }))).0
  unfolding drop_for_restart
  ingest_chunk-NoSet t request es o b k true = started-NoSet t request es none b k
  ingest_chunk-NoSet t request es o b k false = started-NoSet t request es o b k

  checked-NoSet :
      (t : TreeView) (r : CompareRequest) (es : Checked) (o : Option Upload) (b : Session.Inner)
      (k : EngineState c)
      → NoSet
          (ingest_checked t r es (record {
            divergence = record { upload = o; set = none };
            sync_base = b;
            conflicts = k;
          })).0
  unfolding ingest_chunk
  checked-NoSet t r (wrong e) o b k = refl
  checked-NoSet t r (fine es) o b k = ingest_chunk-NoSet t r es o b k r.restart

  compare-NoSet :
      (parse : RefParser) (scope : Scope) (t : TreeView) (body : ℕ)
      (request : Option CompareRequest) (o : Option Upload) (b : Session.Inner) (k : EngineState c)
      → NoSet
          (compare parse scope t body request (record {
            divergence = record { upload = o; set = none };
            sync_base = b;
            conflicts = k;
          })).0
  unfolding compare
  compare-NoSet parse scope t body none o b k =
      elim (Bool-cases (ltb compare_body_max_bytes body)) [ inl e ↦ rw e refl | inr e ↦ rw e refl ]
  compare-NoSet parse scope t body (some r) o b k =
      elim (Bool-cases (ltb compare_body_max_bytes body)) [
        | inl e ↦ rw e refl
        | inr e ↦ elim (Bool-cases (ltb compare_chunk_max_entries (length r.entries))) [
          | inl m ↦ rw (e, m) refl
          | inr m ↦ rw (e, m) (checked-NoSet t r (read_entries parse scope 0 r.entries) o b k)
        ]
      ]

  step-none-NoSet :
      (parse : RefParser) (op : Op) (o : Option Upload) (b : Session.Inner) (k : EngineState c)
      → NoSet (
          step parse op (record {
            divergence = record { upload = o; set = none };
            sync_base = b;
            conflicts = k;
          }))
  unfolding step invalidate
  step-none-NoSet parse (Op.compares scope t body request) o b k =
      compare-NoSet parse scope t body request o b k
  step-none-NoSet parse Op.invalidates none b k = refl
  step-none-NoSet parse Op.invalidates (some u) b k = refl
  step-none-NoSet parse (Op.selects body request) o b k = selection-NoSet body request o
  step-none-NoSet parse (Op.chooses id choice mode) o b k = choice-NoSet id choice mode o

  step-NoSet : (parse : RefParser) (op : Op) (s : ServerState c) → NoSet s → NoSet (step parse op s)
  step-NoSet parse op s h =
      rw h (step-none-NoSet parse op s.divergence.upload s.sync_base s.conflicts)

  run_from-NoSet :
      (parse : RefParser) (os : List Op) (s : ServerState c) → NoSet s → NoSet (run parse os s)
  unfolding run
  run_from-NoSet parse [] s h = h
  run_from-NoSet parse (o ∷ os) s h =
      run_from-NoSet parse os (step parse o s) (step-NoSet parse o s h)

  -- Whatever chunks, selections and choices arrive, and whenever the plugin goes away, a daemon that
  -- starts without a pending set never has one: `GET /choice` says that nothing is pending.
  pub run-never_pending :
      (parse : RefParser) (os : List Op) (b : Session.Inner) (k : EngineState c)
      → choice_get
          (run parse os
            (record { divergence = new_inner; sync_base = b; conflicts = k })).divergence
        ≡ none
  unfolding choice_get
  run-never_pending parse os b k =
      rw
        (
          choice_get,
          run_from-NoSet parse os (record { divergence = new_inner; sync_base = b; conflicts = k })
              refl,
        )
        refl
