-- ===== src/SyncBase.antt =====
-- src/server/sync_base.rs: what both sides last agreed on, per instance path.
pub mod View
pub mod Session
pub mod Held
pub mod Interleaving
mod Tests
use wsync.Prelude.{ℕ, Bool, true, false, Option, none, some, Text, text_eq, OrdMap, OrdSet}

pub record Key : Type 0 where
  pub class : Text
  pub source : Option Text

pub record Place : Type 0 where
  pub place_id : ℕ
  pub game_id : ℕ

pub record Snapshot : Type 0 where
  pub entries : OrdMap Key
  pub ambiguous : OrdSet
  pub held : OrdSet

pub record Stored : Type 0 where
  pub version : ℕ
  pub place : Option Place
  pub saved_at : ℕ
  pub entries : OrdMap Key
  pub ambiguous : OrdSet

abbrev pub base_version : ℕ
base_version = 1
