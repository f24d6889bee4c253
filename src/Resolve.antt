-- ===== src/Resolve.antt =====
-- src/server/resolve.rs: `POST /resolve`, which takes a parked conflict, sends one side over the other,
-- and puts the conflict back when that fails. What the handler reads of the tree, whether the queue
-- took the changes, and what the write processor answered are arguments.
pub mod Records
pub mod Auto
mod Tests
use wsync.Prelude.{
  ℕ, Bool, true, false, not, Option, none, some, List, [], ◌∷◌, Text, codes, text_eq, if◌then◌else◌,
}
use wsync.Conflict.Content.{Codec, Properties, ContentState}
use wsync.Conflict.State.{
  both_edited, fs_deleted_studio_edited, studio_deleted_fs_edited, Classification, StudioApply,
  Parked, EngineState, stamp, forget, take, restore,
}
use wsync.Divergence.Compare.{seed_all_baselines}

pub data Direction : Type 0 where
  local studio : Direction

pub data Failure : Type 0 where
  missing_keep bad_keep unknown_conflict : Failure
  gone_on_disk no_studio_state parent_gone : Failure
  not_queued write_dropped write_failed : Failure

abbrev pub parse_keep : Text → Option Direction
parse_keep t =
    if text_eq t (codes "local")
    then some local
    else (if text_eq t (codes "studio") then some studio else none)

-- `keep`, or else `choice`.
abbrev pub parse_direction : (keep choice : Option Text) → Option (Option Direction)
parse_direction (some k) choice = some (parse_keep k)
parse_direction none (some k) = some (parse_keep k)
parse_direction none none = none

module _ (c : Codec) where
  pub record LiveInstance : Type 0 where
    pub name : Text
    pub properties : Properties c
    pub content : ContentState c

  -- The live tree: which instances there are, and the content hashes of a subtree.
  pub record LiveTree : Type 0 where
    pub exists : ℕ → Bool
    pub instance_at : ℕ → Option LiveInstance
    pub subtree : ℕ → Option (List (ℕ × ℕ))

  -- What goes to Studio or to the write processor; an addition to Studio is the whole subtree.
  pub data Change : Type 0 where
    removes : ℕ → Change
    adds_subtree : ℕ → Change
    adds : (id parent : ℕ) → StudioApply c → Change
    updates : (id : ℕ) → (name : Option Text) → Properties c → Change

  pub data Landing : Type 0 where
    landed : Change → Landing
    failed : Failure → Landing

abbrev pub changed_name : Text → Text → Option Text
changed_name new current = if text_eq new current then none else some new

module _ {c : Codec} where
  abbrev pub pushed : Bool → Change c → Landing c
  pushed true ch = landed ch
  pushed false ch = failed not_queued

  abbrev pub local_subtree :
      Bool → ℕ → Option (List (ℕ × ℕ)) → EngineState c → EngineState c × Landing c
  local_subtree queued id none s = (s, failed gone_on_disk)
  local_subtree queued id (some refs) s =
      (seed_all_baselines refs s, pushed queued (adds_subtree id))

  abbrev pub local_instance :
      Bool → ℕ → Option (LiveInstance c) → EngineState c → EngineState c × Landing c
  local_instance queued id none s = (s, failed gone_on_disk)
  local_instance queued id (some i) s =
      (stamp s id i.content.hash, pushed queued (updates id (some i.name) i.properties))

  abbrev pub local_of :
      LiveTree c → Bool → Classification → ℕ → EngineState c → EngineState c × Landing c
  local_of t queued fs_deleted_studio_edited id s = (forget s id, pushed queued (removes id))
  local_of t queued studio_deleted_fs_edited id s = local_subtree queued id (t.subtree id) s
  local_of t queued both_edited id s = local_instance queued id (t.instance_at id) s

  unfoldable pub keep_local :
      LiveTree c → Bool → Parked c → EngineState c → EngineState c × Landing c
  keep_local t queued p s = local_of t queued p.classification p.instance_ref s

  abbrev pub recreated : LiveTree c → Parked c → Option (StudioApply c) → Landing c
  recreated t p none = failed no_studio_state
  recreated t p (some a) =
      if not (t.exists p.info.parent)
      then failed parent_gone
      else landed (adds p.instance_ref p.info.parent a)

  abbrev pub updated : Parked c → Option (StudioApply c) → Option (LiveInstance c) → Landing c
  updated p none i = failed no_studio_state
  updated p (some a) none = failed gone_on_disk
  updated p (some a) (some i) =
      landed (updates p.instance_ref (changed_name a.name i.name) a.properties)

  abbrev pub studio_of : LiveTree c → Classification → Parked c → Landing c
  studio_of t studio_deleted_fs_edited p = landed (removes p.instance_ref)
  studio_of t fs_deleted_studio_edited p = recreated t p p.studio_apply
  studio_of t both_edited p = updated p p.studio_apply (t.instance_at p.instance_ref)

  -- The answer of the processor: none when it dropped the request, or whether it had no errors.
  abbrev pub processed : Option Bool → Landing c → Landing c
  processed written (failed f) = failed f
  processed none (landed ch) = failed write_dropped
  processed (some true) (landed ch) = landed ch
  processed (some false) (landed ch) = failed write_failed

  unfoldable pub keep_studio : LiveTree c → Option Bool → Parked c → Landing c
  keep_studio t written p = processed written (studio_of t p.classification p)

  abbrev pub conclude : Parked c → EngineState c × Landing c → EngineState c × Landing c
  conclude p (s, landed ch) = (s, landed ch)
  conclude p (s, failed f) = (restore s p, failed f)

  -- `meanwhile` is what the processor and other calls do to the engine while the handler waits.
  abbrev pub resolve_taken :
      LiveTree c
      → (queued : Bool) → (written : Option Bool) → (meanwhile : EngineState c → EngineState c)
      → Direction
      → Parked c
      → EngineState c
      → EngineState c × Landing c
  resolve_taken t queued written meanwhile local p s = conclude p (keep_local t queued p s)
  resolve_taken t queued written meanwhile studio p s =
      conclude p (meanwhile s, keep_studio t written p)

  abbrev pub find_conflict : Option Text → EngineState c → Option (Parked c × EngineState c)
  find_conflict none s = none
  find_conflict (some id) s = take s id

  abbrev pub resolve_in :
      LiveTree c
      → (queued : Bool) → (written : Option Bool) → (meanwhile : EngineState c → EngineState c)
      → Direction
      → EngineState c
      → Option (Parked c × EngineState c)
      → EngineState c × Landing c
  resolve_in t queued written meanwhile d s none = (s, failed unknown_conflict)
  resolve_in t queued written meanwhile d s (some (p, taken)) =
      resolve_taken t queued written meanwhile d p taken

  unfoldable pub resolve :
      LiveTree c
      → (queued : Bool) → (written : Option Bool) → (meanwhile : EngineState c → EngineState c)
      → (id keep choice : Option Text) → EngineState c
      → EngineState c × Landing c
  resolve t queued written meanwhile id keep choice s = elim (parse_direction keep choice) [
    | none ↦ (s, failed missing_keep)
    | some none ↦ (s, failed bad_keep)
    | some (some d) ↦ resolve_in t queued written meanwhile d s (find_conflict id s)
  ]
