-- ===== src/Prelude/Maps.antt =====
-- A hash map or a B-tree map keyed by numbers, as the function that looks a key up.
use Prim.Native.Nat.{ℕ}
use mathlib.Core.Option.{Option, none, some}
use wsync.Prelude.Tests.{◌==◌, if◌then◌else◌}

abbrev pub NatMap {ℓ} : Type ℓ → Type ℓ
NatMap V = ℕ → Option V

abbrev pub empty_map {ℓ} : {V : Type ℓ} → NatMap V
empty_map j = none

abbrev pub insert {ℓ} : {V : Type ℓ} → ℕ → V → NatMap V → NatMap V
insert k v m j = if k == j then some v else m j

abbrev pub remove {ℓ} : {V : Type ℓ} → ℕ → NatMap V → NatMap V
remove k m j = if k == j then none else m j
