-- ===== src/Conflict/Content.antt =====
-- src/core/conflict/content.rs: the canonical content of an instance, and its hash.
use wsync.Prelude.{
  ℕ, Bool, true, false, not, ◌||◌, Option, none, some, List, [], ◌∷◌, ◌++◌, map, Text, codes,
  text_eq, text_lt, ◌==◌, if◌then◌else◌, find_first, retain, unwrap_or,
}

-- What the code takes from `rbx_dom_weak`, `serde_json` and `sha2`: the property values that are
-- not strings, the tagged encoding of a value, its JSON text, and the digest of a byte sequence.
-- A digest, an array of 32 bytes, is the number that it spells.
pub record Codec : Type 1 where
  pub Opaque : Type 0
  pub Json : Type 0
  pub string_json : Text → Json
  pub opaque_json : Opaque → Json
  pub json_string : Json → Option Text
  pub print : Json → Text
  pub sha256 : Text → ℕ

-- `Variant`, with the one case that the code matches on.
pub data Variant (c : Codec) : Type 0 where
  string : Text → Variant c
  other : c.Opaque → Variant c

-- `Properties`: a map from property names to values, as its entries in iteration order.
abbrev pub Properties : Codec → Type 0
Properties c = List (Text × Variant c)

pub record ContentState (c : Codec) : Type 0 where
  pub name : Text
  pub class : Text
  pub properties : List (Text × c.Json)
  pub hash : ℕ

-- `source.replace("\r\n", "\n")`, read from left to right; `held` says that the byte before was a
-- carriage return that is not yet written.
fold_from : Bool → Text → Text
fold_from held [] = if held then 13 ∷ [] else []
fold_from held (x ∷ xs) =
    let rest = fold_from (x == 13) xs in
    let body : Text = if x == 13 then rest else x ∷ rest in
    if held then (if x == 10 then body else 13 ∷ body) else body

unfoldable pub fold_crlf : Text → Text
unfolding fold_from
fold_crlf s = fold_from false s

contains_cr : Text → Bool
contains_cr [] = false
contains_cr (x ∷ xs) = if x == 13 then true else contains_cr xs

-- Insertion by key: what `sort_by(|(a, _), (b, _)| a.cmp(b))` computes on distinct keys.
insert_entry {ℓ} : {A : Type ℓ} → Text × A → List (Text × A) → List (Text × A)
insert_entry e [] = e ∷ []
insert_entry e (f ∷ l) = if text_lt f.0 e.0 then f ∷ insert_entry e l else e ∷ f ∷ l

sort_entries {ℓ} : {A : Type ℓ} → List (Text × A) → List (Text × A)
sort_entries [] = []
sort_entries (e ∷ l) = insert_entry e (sort_entries l)

abbrev pub source_key : Text
source_key = codes "Source"

abbrev pub marker_key : Text
marker_key = codes "ArgonEmpty"

-- util.rs
unfoldable pub is_script : Text → Bool
is_script class =
    text_eq class (codes "Script")
    || text_eq class (codes "LocalScript")
    || text_eq class (codes "ModuleScript")

module _ (c : Codec) where
  normalize_source : Variant c → Variant c
  normalize_source (string s) = if contains_cr s then string (fold_crlf s) else string s
  normalize_source (other v) = other v

  to_json : Variant c → c.Json
  to_json (string s) = c.string_json s
  to_json (other v) = c.opaque_json v

  -- The map step of `ContentState::new`.
  encode_entry : Text × Variant c → Text × c.Json
  encode_entry (key, value) =
      (key, to_json (if text_eq key source_key then normalize_source value else value))

  encode : Properties c → List (Text × c.Json)
  encode props = sort_entries (map encode_entry (retain (λ e. not (text_eq e.0 marker_key)) props))

  -- The bytes that the hasher is fed, a zero byte behind each part.
  hash_entries : List (Text × c.Json) → Text
  hash_entries [] = []
  hash_entries ((key, value) ∷ l) = key ++ (0 ∷ (c.print value ++ (0 ∷ hash_entries l)))

  hash_input : Text → Text → List (Text × c.Json) → Text
  hash_input class name encoded = class ++ (0 ∷ (name ++ (0 ∷ hash_entries encoded)))

  -- `ContentState::new`
  unfoldable pub new_content : Text → Text → Properties c → ContentState c
  unfolding encode hash_input hash_entries encode_entry normalize_source to_json sort_entries
      insert_entry contains_cr fold_crlf
  new_content name class props = record {
    name = name;
    class = class;
    properties = encode props;
    hash = c.sha256 (hash_input class name (encode props));
  }

  -- `ContentState::source`
  unfoldable pub source : ContentState c → Option Text
  source s =
      if is_script s.class
      then (elim (find_first (λ e. text_eq e.0 source_key) s.properties) [
        | none ↦ none
        | some e ↦ c.json_string e.1
      ])
      else none

  -- `ContentState::with_update`: the overlay of an `UpdatedSnapshot`.
  unfoldable pub with_update :
      ContentState c
      → Option Text
      → Option Text
      → Option (Properties c)
      → Properties c
      → ContentState c
  with_update s name class props base =
      new_content (unwrap_or name s.name) (unwrap_or class s.class) (unwrap_or props base)
