-- ===== src/Scope.antt =====
-- What the protocol reads of an instance: the class filter of src/project.rs (`Scope`), the refs of
-- src/util.rs, and the key that Studio reports (`Key::from_studio` of src/server/sync_base.rs).
use wsync.Prelude.{
  ℕ, ◌+◌, Bool, true, not, ◌&&◌, ◌||◌, Option, none, some, List, [], ◌∷◌, map, Text, codes, text_eq,
  any, all, length, leb, ◌==◌, if◌then◌else◌,
}
use wsync.Conflict.Content.{is_script}
use wsync.SyncBase.{Key}

pub data Scope : Type 0 where
  code full : Scope

abbrev pub code_classes : List Text
code_classes =
    codes "Folder"
    ∷ codes "Script"
    ∷ codes "LocalScript"
    ∷ codes "ModuleScript"
    ∷ codes "StarterPlayerScripts"
    ∷ codes "StarterCharacterScripts"
    ∷ []

unfoldable pub allows_class : Scope → Text → Bool
allows_class Scope.full class = true
allows_class Scope.code class = any (λ c. text_eq c class) code_classes

abbrev pub in_range : ℕ → ℕ → ℕ → Bool
in_range lo hi c = leb lo c && leb c hi

-- `Ref`'s own parser, which comes with rbx_dom_weak.
abbrev pub RefParser : Type 0
RefParser = Text → Option ℕ

abbrev pub is_lower_hex : ℕ → Bool
is_lower_hex c = in_range b'0' b'9' c || in_range b'a' b'f' c

unfoldable pub parse_ref : RefParser → Text → Option ℕ
parse_ref parse hex = if length hex == 32 && all is_lower_hex hex then parse hex else none

-- `char::is_whitespace`
unfoldable pub is_whitespace : ℕ → Bool
is_whitespace c =
    in_range 9 13 c
    || in_range 8192 8202 c
    || any (λ w. w == c) (32 ∷ 133 ∷ 160 ∷ 5760 ∷ 8232 ∷ 8233 ∷ 8239 ∷ 8287 ∷ 12288 ∷ [])

abbrev pub trim_start : Text → Text
trim_start [] = []
trim_start (c ∷ cs) = if is_whitespace c then trim_start cs else c ∷ cs

abbrev pub trim_end : Text → Text
trim_end [] = []
trim_end (c ∷ cs) = let rest = trim_end cs in if all is_whitespace (c ∷ cs) then [] else c ∷ rest

unfoldable pub trim : Text → Text
trim t = trim_end (trim_start t)

abbrev pub lower : ℕ → ℕ
lower c = if in_range b'A' b'Z' c then c + 32 else c

abbrev pub is_hex : ℕ → Bool
is_hex c = in_range b'0' b'9' c || in_range b'a' b'f' c || in_range b'A' b'F' c

unfoldable pub from_hash : Text → Text → Option Key
from_hash class hash =
    if not (length hash == 64) || not (all is_hex hash)
    then none
    else some (record { class = class; source = some hash })

unfoldable pub from_studio : Text → Option Text → Option Key
from_studio class source_sha256 =
    if not (is_script class)
    then some (record { class = class; source = none })
    else (elim source_sha256 [ none ↦ none | some s ↦ from_hash class (map lower (trim s)) ])
