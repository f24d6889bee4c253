-- ===== src/Resolve/Tests.antt =====
-- A parked deletion whose resolution the queue does not take, and one that lands.
use wsync.Prelude.{
  ℕ, ◌+◌, ◌*◌, ◌≡◌, refl, true, false, Bool, none, some, [], ◌∷◌, Text, codes, text_eq,
}
use wsync.Conflict.Content.{Codec}
use wsync.Conflict.State.{
  fs_deleted_studio_edited, Parked, EngineState, new_engine, restore, take, forget, absent_side,
}
use wsync.Resolve.{LiveTree, resolve, keep_local, local}
use wsync.Resolve.Records.{picked, resolved, resolve_keeps}

abbrev digest : Text → ℕ
digest [] = 1
digest (b ∷ bs) = b + 257 * digest bs

abbrev texts : Codec
texts = record {
  Opaque = ℕ;
  Json = Text;
  string_json = λ s. s;
  opaque_json = λ n. n ∷ [];
  json_string = λ j. some j;
  print = λ j. j;
  sha256 = digest;
}

abbrev empty_tree : LiveTree texts
empty_tree = record { exists = λ id. false; instance_at = λ id. none; subtree = λ id. none }

abbrev deleted : Parked texts
deleted = record {
  id = codes "c1";
  instance_ref = 7;
  info = record { id = 7; parent = 0; instance_path = codes "Workspace/a"; rel_path = none };
  classification = fs_deleted_studio_edited;
  fs = absent_side;
  studio = absent_side;
  studio_apply = none;
  detected_at = [];
}

abbrev parked_engine : EngineState texts
parked_engine = restore (new_engine texts) deleted

abbrev is_deleted : Parked texts → Bool
is_deleted p = text_eq p.id (codes "c1")

stays_parked :
    picked is_deleted
      (resolve empty_tree false none
        (λ s. s)
        (some (codes "c1"))
        (some (codes "local"))
        none
        parked_engine).0.parked
    ≡ 1
unfolding resolve restore new_engine take keep_local forget
stays_parked = refl

resolve_keeps_example :
    (let r =
        resolve empty_tree true none
          (λ s. s)
          (some (codes "c1"))
          (some (codes "local"))
          none
          parked_engine in
      picked is_deleted r.0.parked + resolved is_deleted deleted r.1)
    ≡ picked is_deleted parked_engine.parked
unfolding restore new_engine
resolve_keeps_example =
    resolve_keeps is_deleted empty_tree true none (λ s. s) (codes "c1") (some (codes "local")) none
      local deleted parked_engine refl refl (λ u. refl)
