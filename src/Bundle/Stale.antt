-- ===== src/Bundle/Stale.antt =====
-- `StartAll` of container/bundle.go when a container is missing after the start, which happens when
-- the caller's context ends while registrations are still waiting: the early return does not reset
-- the bundle.
use testcontainerd.Prelude.{ℕ, ◌≡◌, false, List, [], ◌∷◌, ◌++◌, Option, none, some, Text, get_elem?}
use testcontainerd.Prelude.Dict.{lookup, insert}
use testcontainerd.Registration.{Registration, Container}
use testcontainerd.Bundle.{Bundle}

module _ {W : Type 0} where
  -- Some registration of the list has no container in the map.
  abbrev pub IsMissing : List (Registration W) → List (Text × Option Container) → Type 0
  IsMissing regs m =
      (i : ℕ) × (reg : Registration W) × (get_elem? regs i ≡ some reg) × (lookup reg.name m ≡ none)

  abbrev entered : Registration W → Option Container → Bundle W → Bundle W
  entered reg ctr b = record b {
    start_order = b.start_order ++ reg.name ∷ [];
    cleanup = b.cleanup ++ ctr ∷ [];
    container_by = insert reg.name ctr b.container_by;
  }

  -- The order grows at its end, and the flag stays.
  abbrev Grows : Bundle W → Bundle W → Type 0
  Grows b b' =
      ((rest : List Text) × (b'.start_order ≡ b.start_order ++ rest)) × (b'.started ≡ b.started)

  -- The bundle that `StartAll` leaves: not started, and its order lists the first registration.
  abbrev pub IsStale : Text → Bundle W → Bundle W → Type 0
  IsStale first b b' =
      (b'.started ≡ false) × ((rest : List Text) × (b'.start_order ≡ b.start_order ++ first ∷ rest))
