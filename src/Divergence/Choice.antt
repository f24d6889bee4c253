-- ===== src/Divergence/Choice.antt =====
-- The choice over a pending set: `GET /choice`, `GET /choice/details`, `POST /choice/selection` and
-- the part of `POST /choice` that runs under the lock.
use wsync.Prelude.{
  ℕ, zero, suc, ◌+◌, Bool, false, not, ◌&&◌, Option, none, some, List, [], ◌∷◌, Text, codes,
  text_eq, length, ltb, leb, ◌==◌, if◌then◌else◌, any, find_first, retain, unwrap_or,
}
use wsync.Divergence.{Item, Stats, Selection, DivergenceSet, Inner}

abbrev pub selection_chunk_max_ids : ℕ
selection_chunk_max_ids = 2048

abbrev pub selection_body_max_bytes : ℕ
selection_body_max_bytes = 65536

abbrev pub details_default_limit : ℕ
details_default_limit = 512

abbrev pub details_max_limit : ℕ
details_max_limit = 1024

abbrev pub details_byte_budget : ℕ
details_byte_budget = 524288

unfoldable pub choice_get : Inner → Option (Text × Stats)
choice_get s = elim s.set [ none ↦ none | some d ↦ some (d.choice_id, d.stats) ]

-- Whether an optional id of a request is the id of the set.
abbrev pub names_set : Option Text → DivergenceSet → Bool
names_set none d = false
names_set (some id) d = text_eq id d.choice_id

pub record DetailsPage : Type 0 where
  pub items : List Item
  pub next_cursor : Option ℕ

abbrev pub skip : ℕ → List Item → List Item
skip zero is = is
skip (suc n) [] = []
skip (suc n) (i ∷ is) = skip n is

abbrev pub page_cons : Item → DetailsPage → DetailsPage
page_cons i p = record p { items = i ∷ p.items }

-- The loop of `choice_details`, after `taken` items of `bytes` bytes; `size` is the length of an
-- item's JSON text, which serde_json writes.
unfoldable pub take_page : (Item → ℕ) → ℕ → ℕ → ℕ → List Item → DetailsPage
take_page size limit taken bytes [] = record { items = []; next_cursor = none }
take_page size limit taken bytes (i ∷ is) =
    let rest = take_page size limit (taken + 1) (bytes + (size i + 1)) is in
    if leb limit taken
    then (record { items = []; next_cursor = some i.id })
    else (if not (taken == 0) && ltb details_byte_budget (bytes + (size i + 1))
        then (record { items = []; next_cursor = some i.id })
        else page_cons i rest)

abbrev pub clamp : ℕ → ℕ → ℕ → ℕ
clamp lo hi n = if ltb n lo then lo else (if ltb hi n then hi else n)

pub data Refused : Type 0 where
  payload_too_large malformed too_many_ids no_pending_set stale_choice : Refused
  out_of_range : ℕ → Refused
  no_selection already_committed other_submission : Refused
  receipt_mismatch : (expected got : ℕ) → Refused
  uncommitted_selection resolved bad_choice : Refused

pub data Answer {ℓ} (A : Type ℓ) : Type ℓ where
  answered : A → Answer A
  refused : Refused → Answer A

unfoldable pub choice_details :
    (Item → ℕ) → Option Text → Option ℕ → Option ℕ → Inner → Answer DetailsPage
choice_details size choice_id cursor limit s = elim s.set [
  | none ↦ refused no_pending_set
  | some d ↦
      if not (names_set choice_id d)
      then refused stale_choice
      else answered (
          take_page size (clamp 1 details_max_limit (unwrap_or limit details_default_limit)) 0 0
            (skip (unwrap_or cursor 0) d.items))
]

pub record SelectionRequest : Type 0 where
  pub choice_id : Text
  pub submission_id : Text
  pub chunk_index : ℕ
  pub final_chunk : Bool
  pub restart : Bool
  pub ids : List ℕ

pub record SelectionReceipt : Type 0 where
  pub accepted_chunk : ℕ
  pub next_chunk : ℕ
  pub selected_count : ℕ
  pub committed : Bool

-- `BTreeSet::insert`
abbrev pub insert_id : ℕ → List ℕ → List ℕ
insert_id id [] = id ∷ []
insert_id id (j ∷ js) =
    if id == j then j ∷ js else (if ltb id j then id ∷ j ∷ js else j ∷ insert_id id js)

abbrev pub insert_ids : List ℕ → List ℕ → List ℕ
insert_ids [] js = js
insert_ids (id ∷ ids) js = insert_ids ids (insert_id id js)

abbrev pub extend_selection : SelectionRequest → Selection → Selection
extend_selection r sel = record sel {
  ids = insert_ids r.ids sel.ids;
  next_chunk = sel.next_chunk + 1;
  committed = r.final_chunk;
}

abbrev pub receipt : SelectionRequest → Selection → SelectionReceipt
receipt r sel = record {
  accepted_chunk = r.chunk_index;
  next_chunk = sel.next_chunk;
  selected_count = length sel.ids;
  committed = sel.committed;
}

abbrev pub first_selection : SelectionRequest → Selection
first_selection r = record {
  submission_id = r.submission_id;
  next_chunk = 0;
  ids = [];
  committed = false;
}

abbrev pub accept_ids :
    SelectionRequest → Selection → DivergenceSet → DivergenceSet × Answer SelectionReceipt
accept_ids r sel d =
    let sel' = extend_selection r sel in
    (record d { selection = some sel' }, answered (receipt r sel'))

-- From the test of the chunk's index on, after a restart dropped the selection.
unfoldable pub select_ids :
    SelectionRequest → DivergenceSet → DivergenceSet × Answer SelectionReceipt
select_ids r d = elim d.selection [
  | none ↦
      if not (r.chunk_index == 0)
      then (d, refused no_selection)
      else accept_ids r (first_selection r) d
  | some sel ↦
      if sel.committed
      then (d, refused already_committed)
      else (if not (text_eq sel.submission_id r.submission_id)
          then (d, refused other_submission)
          else (if not (r.chunk_index == sel.next_chunk)
              then (d, refused (receipt_mismatch sel.next_chunk r.chunk_index))
              else accept_ids r sel d))
]

abbrev pub restarted : SelectionRequest → DivergenceSet → DivergenceSet
restarted r d = if r.restart then record d { selection = none } else d

unfoldable pub select_in :
    SelectionRequest → DivergenceSet → DivergenceSet × Answer SelectionReceipt
select_in r d =
    if not (text_eq d.choice_id r.choice_id)
    then (d, refused stale_choice)
    else (elim (find_first (λ id. leb (length d.items) id) r.ids) [
      | some id ↦ (d, refused (out_of_range id))
      | none ↦ select_ids r (restarted r d)
    ])

abbrev pub put_set :
    Inner → DivergenceSet × Answer SelectionReceipt → Inner × Answer SelectionReceipt
put_set s r = (record s { set = some r.0 }, r.1)

unfoldable pub choice_selection :
    ℕ → Option SelectionRequest → Inner → Inner × Answer SelectionReceipt
choice_selection body request s =
    if ltb selection_body_max_bytes body then (s, refused payload_too_large) else (elim request [
      | none ↦ (s, refused malformed)
      | some r ↦
          if ltb selection_chunk_max_ids (length r.ids)
          then (s, refused too_many_ids)
          else (elim s.set [
            | none ↦ (s, refused no_pending_set)
            | some d ↦ put_set s (select_in r d)
          ])
    ])

abbrev pub is_all : Option Text → Bool
is_all none = false
is_all (some m) = text_eq m (codes "all")

abbrev pub contains_id : List ℕ → ℕ → Bool
contains_id ids id = any (λ j. j == id) ids

unfoldable pub staged_items : DivergenceSet → Option Text → Answer (List Item)
staged_items d mode = if is_all mode then answered d.items else (elim d.selection [
  | none ↦ answered d.items
  | some sel ↦
      if sel.committed
      then answered (retain (λ i. contains_id sel.ids i.id) d.items)
      else refused uncommitted_selection
])

pub data Kept : Type 0 where
  studio disk cancel : Kept

pub data Decision : Type 0 where
  refused_with : Refused → Decision
  cancelled : Text → Decision
  studio_kept disk_kept : Text → List Item → Decision

abbrev pub decided : Kept → Text → List Item → Decision
decided Kept.disk id staged = disk_kept id staged
decided Kept.studio id staged = studio_kept id staged
decided Kept.cancel id staged = cancelled id

abbrev pub decide_staged : Kept → DivergenceSet → Inner → Answer (List Item) → Inner × Decision
decide_staged kept d s (answered staged) =
    (record s { set = none }, decided kept d.choice_id staged)
decide_staged kept d s (refused r) = (s, refused_with r)

abbrev pub decide_set : Kept → Option Text → DivergenceSet → Inner → Inner × Decision
decide_set Kept.cancel mode d s = (record s { set = none }, cancelled d.choice_id)
decide_set Kept.studio mode d s = decide_staged Kept.studio d s (staged_items d mode)
decide_set Kept.disk mode d s = decide_staged Kept.disk d s (staged_items d mode)

unfoldable pub parse_choice : Text → Option Kept
parse_choice t =
    if text_eq t (codes "studio")
    then some Kept.studio
    else (if text_eq t (codes "disk")
        then some Kept.disk
        else (if text_eq t (codes "cancel") then some Kept.cancel else none))

unfoldable pub choice_post : Option Text → Option Text → Option Text → Inner → Inner × Decision
choice_post choice_id choice mode s = elim (parse_choice (unwrap_or choice [])) [
  | none ↦ (s, refused_with bad_choice)
  | some kept ↦ elim s.set [
    | none ↦ (s, refused_with resolved)
    | some d ↦
        if not (names_set choice_id d) then (s, refused_with resolved) else decide_set kept mode d s
  ]
]
