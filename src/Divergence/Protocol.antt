-- ===== src/Divergence/Protocol.antt =====
-- The upload in chunks: what is committed is what was sent, and what is refused changes nothing.
use wsync.Prelude.{
  ℕ, suc, ◌+◌, ◌≡◌, refl, sym, ap, ◌∙◌, Bool, true, false, not, Option, none, some, List, [], ◌∷◌,
  ◌++◌, Text, text_eq, text_eq_refl, length, ◌==◌, ==_refl, if◌then◌else◌, Bool-cases, inl, inr,
  arith, append_assoc, opt_eq,
}
use wsync.SyncBase.{Place}
use wsync.SyncBase.Session
use wsync.Conflict.State.{EngineState}
use wsync.SyncBase.Session.{begin_compare, or_else}
use wsync.Conflict.Content.{Codec}
use wsync.Divergence.{Entry, Upload, DivergenceSet, CompareRequest}
use wsync.Divergence.Compare.{
  TreeView, ServerState, Ingested, refused, ingest_chunk, ingest_started, accept, commit_upload,
  set_upload, drop_for_restart, first_upload,
}

-- A chunk of a submission; its entries are the ones that were read from it.
abbrev pub chunk : Text → Option Place → ℕ → Bool → CompareRequest
chunk submission place index final = record {
  submission_id = submission;
  chunk_index = index;
  final_chunk = final;
  restart = false;
  place = place;
  entries = [];
}

abbrev pub concat : List (List Entry) → List Entry
concat [] = []
concat (es ∷ ess) = es ++ concat ess

or_else_same : (place : Option Place) → or_else place place ≡ place
or_else_same none = refl
or_else_same (some p) = refl

abbrev pub upload_of : Text → Option Place → ℕ → List Entry → Upload
upload_of submission place n es = record {
  submission_id = submission;
  next_chunk = n;
  entries = es;
  place = place;
}

module _ {c : Codec} (t : TreeView) (submission : Text) (place : Option Place) where
  -- The chunks `ess` and then `last`, from the index `i` on.
  unfoldable pub send_chunks :
      ℕ → List (List Entry) → List Entry → ServerState c → ServerState c × Ingested
  send_chunks i [] last s = ingest_chunk t (chunk submission place i true) last s
  send_chunks i (es ∷ ess) last s =
      send_chunks (i + 1) ess last (ingest_chunk t (chunk submission place i false) es s).0

  commit_same :
      (m n : ℕ) (xs ys : List Entry) (s : ServerState c)
      → m ≡ n
      → xs ≡ ys
      → commit_upload t m (upload_of submission place (m + 1) xs) s
        ≡ commit_upload t n (upload_of submission place (n + 1) ys) s
  commit_same m n xs ys s h k = rw (h, k) refl

  send_more :
      (i : ℕ) (ess : List (List Entry)) (last sofar : List Entry) (s : ServerState c)
      → send_chunks i ess last (set_upload (some (upload_of submission place i sofar)) s)
        ≡ commit_upload t
            (i + length ess)
            (upload_of submission place (i + length ess + 1) (sofar ++ (concat ess ++ last)))
            (set_upload none s)
  unfolding send_chunks ingest_chunk ingest_started accept drop_for_restart set_upload
  send_more i [] last sofar s =
      rw (text_eq_refl submission, ==_refl i, or_else_same place)
        (commit_same i (i + 0) _ _ (set_upload none s) (omega arith) refl)
  send_more i (es ∷ ess) last sofar s =
      rw (text_eq_refl submission, ==_refl i, or_else_same place)
        (send_more (i + 1) ess last (sofar ++ es) s
          ∙ commit_same (i + 1 + length ess) (i + suc (length ess)) _ _ (set_upload none s)
              (omega arith)
              (append_assoc sofar es (concat ess ++ last)
                ∙ ap (λ l. sofar ++ l) (sym (append_assoc es (concat ess) last))))

  -- A submission whose chunks arrive in order, with none in progress before, ends the way one chunk
  -- with all the entries in their order would be committed, whatever its size; until then the base
  -- is not recorded.
  pub send_chunks-commits :
      (ess : List (List Entry)) (last : List Entry) (s : ServerState c)
      → s.divergence.upload ≡ none
      → send_chunks 0 ess last s
        ≡ commit_upload t
            (length ess)
            (upload_of submission place (length ess + 1) (concat ess ++ last))
            (record s { sync_base = begin_compare place s.sync_base })
  unfolding send_chunks ingest_chunk ingest_started accept drop_for_restart set_upload
  send_chunks-commits [] last s h = rw (h, or_else_same place) refl
  send_chunks-commits (es ∷ ess) last s h =
      rw (h, or_else_same place)
        (send_more 1 ess last es (record s { sync_base = begin_compare place s.sync_base })
          ∙ commit_same (1 + length ess) (suc (length ess)) _ _ _ (omega arith)
              (sym (append_assoc es (concat ess) last)))

abbrev pub is_refused : Ingested → Bool
is_refused (refused r) = true
is_refused _ = false

-- The index of the chunk that a submission may send next.
abbrev pub awaited : Text → Option Upload → Option ℕ
awaited submission none = some 0
awaited submission (some u) = if text_eq u.submission_id submission then some u.next_chunk else none

module _ {c : Codec} (t : TreeView) (request : CompareRequest) (es : List Entry) where
  commit-not_refused :
      (n next : ℕ) (name : Text) (xs : List Entry) (p : Option Place) (s : ServerState c)
      → is_refused
          (commit_upload t n
            (record { submission_id = name; next_chunk = next; entries = xs; place = p })
            s).1
        ≡ false
  unfolding commit_upload
  commit-not_refused n next name [] p s = refl
  commit-not_refused n next name (x ∷ xs) p s = refl

  accept-not_refused :
      (u : Upload) (s : ServerState c) → is_refused (accept t request es u s).1 ≡ false
  unfolding accept
  accept-not_refused u s = elim (Bool-cases request.final_chunk) [
    | inl e ↦ rw e (commit-not_refused _ _ _ (u.entries ++ es) _ _)
    | inr e ↦ rw e refl
  ]

  ingest_from :
      (o : Option Upload) (set : Option DivergenceSet) (b : Session.Inner) (k : EngineState c)
      → (let s : ServerState c = record {
        divergence = record { upload = o; set = set };
        sync_base = b;
        conflicts = k;
      } in
          let r = ingest_started t request es s in
          (is_refused r.1
            ≡ not (opt_eq (some request.chunk_index) (awaited request.submission_id o)))
          × (s ≡ (if is_refused r.1 then r.0 else s)))
  unfolding ingest_started
  ingest_from none set b k = elim (Bool-cases (request.chunk_index == 0)) [
    | inl e ↦ rw e (
      accept-not_refused (first_upload request) _,
      rw
          (accept-not_refused (first_upload request) (record {
            divergence = record { upload = none; set = set };
            sync_base = begin_compare request.place b;
            conflicts = k;
          }))
          refl,
    )
    | inr e ↦ rw e (refl, refl)
  ]
  ingest_from (some u) set b k = elim (Bool-cases (text_eq u.submission_id request.submission_id)) [
    | inl n ↦ elim (Bool-cases (request.chunk_index == u.next_chunk)) [
      | inl e ↦
          rw (n, e)
            (
              accept-not_refused u _,
              rw
                  (accept-not_refused u (record {
                    divergence = record { upload = some u; set = set };
                    sync_base = b;
                    conflicts = k;
                  }))
                  refl,
            )
      | inr e ↦ rw (n, e) (refl, refl)
    ]
    | inr n ↦ rw n (refl, refl)
  ]

  -- Without a restart, a chunk is refused exactly where it is not the one that its submission has
  -- to send next, so also where it comes a second time; and a refused chunk changes nothing.
  pub ingest_chunk-refuses :
      (s : ServerState c)
      → request.restart ≡ false
      → (let r = ingest_chunk t request es s in
          (is_refused r.1
            ≡ not (
                opt_eq
                  (some request.chunk_index)
                  (awaited request.submission_id s.divergence.upload)))
          × (s ≡ (if is_refused r.1 then r.0 else s)))
  unfolding ingest_chunk drop_for_restart ingest_started accept
  ingest_chunk-refuses s h =
      rw h (ingest_from s.divergence.upload s.divergence.set s.sync_base s.conflicts)
