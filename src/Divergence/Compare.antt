-- ===== src/Divergence/Compare.antt =====
-- `POST /compare`: what refuses a chunk, the upload that the chunks build up, and its commit. The
-- connect apply that follows a commit with differences is not part of it.
use wsync.Prelude.{
  ℕ, ◌+◌, Bool, true, false, not, Option, none, some, List, [], ◌∷◌, ◌++◌, text_eq, length, ltb,
  ◌==◌, if◌then◌else◌,
}
use wsync.Scope.{Scope, allows_class, RefParser, parse_ref}
use wsync.SyncBase.{Place, Snapshot}
use wsync.SyncBase.Session
use wsync.SyncBase.Session.{begin_compare, commit, or_else}
use wsync.Conflict.Content.{Codec}
use wsync.Conflict.State.{EngineState, stamp}
use wsync.Divergence.{
  parse_change, Entry, Item, Upload, Inner, CompareEntry, CompareRequest, entry_studio, RelPaths,
  freeze,
}

pub data Refusal : Type 0 where
  body_too_large malformed too_many_entries : Refusal
  bad_ref bad_change : (index : ℕ) → Refusal
  no_upload other_submission : Refusal
  receipt_mismatch : (expected got : ℕ) → Refusal

pub data Ingested : Type 0 where
  refused : Refusal → Ingested
  received : (accepted next : ℕ) → Ingested
  clean : (accepted next : ℕ) → Ingested
  studio_first : List Item → (accepted next : ℕ) → Option Place → Ingested

pub record ServerState (c : Codec) : Type 0 where
  pub divergence : Inner
  pub sync_base : Session.Inner
  pub conflicts : EngineState c

-- What the handler reads of the tree and of the clock: the ids of the instances with their content
-- hashes, the snapshot for the sync base with nothing held, the generation, the files, the seconds,
-- and whether the base could be written.
pub record TreeView : Type 0 where
  pub contents : List (ℕ × ℕ)
  pub snapshot : Snapshot
  pub generation : ℕ
  pub rel_paths : RelPaths
  pub seconds : ℕ
  pub written : Bool

abbrev pub compare_body_max_bytes : ℕ
compare_body_max_bytes = 524288

abbrev pub compare_chunk_max_entries : ℕ
compare_chunk_max_entries = 512

pub data Checked : Type 0 where
  fine : List Entry → Checked
  wrong : Refusal → Checked

abbrev pub with_entry : Entry → Checked → Checked
with_entry e (fine es) = fine (e ∷ es)
with_entry e (wrong r) = wrong r

-- The loop over a chunk's entries.
unfoldable pub read_entries : RefParser → Scope → ℕ → List CompareEntry → Checked
read_entries parse scope index [] = fine []
read_entries parse scope index (e ∷ es) =
    let rest = read_entries parse scope (index + 1) es in
    elim (parse_ref parse e.instance_text) [
      | none ↦ wrong (bad_ref index)
      | some instance_ref ↦ elim (parse_change e.change) [
        | none ↦ wrong (bad_change index)
        | some change ↦
            if not (allows_class scope e.class)
            then rest
            else with_entry
                (record {
                  instance_ref = instance_ref;
                  change = change;
                  class = e.class;
                  instance_path = e.instance_path;
                  studio = entry_studio scope change e;
                })
                rest
      ]
    ]

abbrev pub extend : CompareRequest → List Entry → Upload → Upload
extend request es u = record u {
  entries = u.entries ++ es;
  next_chunk = u.next_chunk + 1;
  place = or_else u.place request.place;
}

abbrev pub first_upload : CompareRequest → Upload
first_upload request = record {
  submission_id = request.submission_id;
  next_chunk = 0;
  entries = [];
  place = request.place;
}

module _ {c : Codec} where
  unfoldable pub seed_all_baselines : List (ℕ × ℕ) → EngineState c → EngineState c
  seed_all_baselines [] s = s
  seed_all_baselines (e ∷ es) s = seed_all_baselines es (stamp s e.0 e.1)

  unfoldable pub drop_for_restart : Bool → ServerState c → ServerState c
  drop_for_restart true s = record s { divergence = record { upload = none; set = none } }
  drop_for_restart false s = s

  unfoldable pub set_upload : Option Upload → ServerState c → ServerState c
  set_upload u s = record s { divergence = record s.divergence { upload = u } }

  -- The final chunk; the upload is no longer in progress.
  unfoldable pub commit_upload : TreeView → ℕ → Upload → ServerState c → ServerState c × Ingested
  commit_upload t accepted u s = elim u.entries [
    | [] ↦ (
      record s {
        conflicts = seed_all_baselines t.contents s.conflicts;
        sync_base = commit t.snapshot t.generation false t.seconds t.written s.sync_base;
      },
      clean accepted u.next_chunk,
    )
    | e ∷ es ↦ (s, studio_first (freeze t.rel_paths (e ∷ es)).0 accepted u.next_chunk u.place)
  ]

  -- The chunk has its place in the upload `u`.
  unfoldable pub accept :
      TreeView → CompareRequest → List Entry → Upload → ServerState c → ServerState c × Ingested
  accept t request es u s =
      let u' = extend request es u in
      if not request.final_chunk
      then (set_upload (some u') s, received request.chunk_index u'.next_chunk)
      else commit_upload t request.chunk_index u' (set_upload none s)

  unfoldable pub ingest_started :
      TreeView → CompareRequest → List Entry → ServerState c → ServerState c × Ingested
  ingest_started t request es s = elim s.divergence.upload [
    | none ↦
        if not (request.chunk_index == 0)
        then (s, refused no_upload)
        else accept t request es (first_upload request)
            (record s { sync_base = begin_compare request.place s.sync_base })
    | some u ↦
        if not (text_eq u.submission_id request.submission_id)
        then (s, refused other_submission)
        else (if not (request.chunk_index == u.next_chunk)
            then (s, refused (receipt_mismatch u.next_chunk request.chunk_index))
            else accept t request es u s)
  ]

  unfoldable pub ingest_chunk :
      TreeView → CompareRequest → List Entry → ServerState c → ServerState c × Ingested
  ingest_chunk t request es s = ingest_started t request es (drop_for_restart request.restart s)

  abbrev pub ingest_checked :
      TreeView → CompareRequest → Checked → ServerState c → ServerState c × Ingested
  ingest_checked t request (wrong r) s = (s, refused r)
  ingest_checked t request (fine es) s = ingest_chunk t request es s

  -- `body` is the length of the body in bytes, with the request that it spells, if it spells one.
  unfoldable pub compare :
      RefParser
      → Scope
      → TreeView
      → ℕ
      → Option CompareRequest
      → ServerState c
      → ServerState c × Ingested
  compare parse scope t body request s =
      if ltb compare_body_max_bytes body then (s, refused body_too_large) else (elim request [
        | none ↦ (s, refused malformed)
        | some r ↦
            if ltb compare_chunk_max_entries (length r.entries)
            then (s, refused too_many_entries)
            else ingest_checked t r (read_entries parse scope 0 r.entries) s
      ])
