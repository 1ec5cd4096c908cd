-- ===== src/Cleanup.antt =====
-- daemon/cleanup.go: before a daemon starts, the containers that are left over under its names are
-- removed. The docker client is a parameter.
pub mod Swept
use testcontainerd.Prelude.{
  ℕ, zero, suc, Bool, true, false, ◌||◌, List, [], ◌∷◌, Option, none, some, Text, is_nil,
  trim_slash, if◌then◌else◌,
}
use testcontainerd.Prelude.Results.{Result, ok, err}
use testcontainerd.Errors.{Error, remove_timeout}
use testcontainerd.Registration.{Registration, contains}

-- A container of the list that docker gives.
pub record Listed : Type 0 where
  pub id : Text
  pub names : List Text

-- What `ContainerInspect` gives, and whether the context of the wait is done when it does, or, if the
-- container is still there, before the next value of the ticker.
pub data Inspected : Type 0 where
  missing : Inspected
  broken : Error → Bool → Inspected
  present : Bool → Inspected

-- `client.NewClientWithOpts`, `ContainerList`, `ContainerRemove` and `ContainerInspect`.
pub record Docker (W : Type 0) : Type 0 where
  pub connect : W → Option Error
  pub list : W → Result Error (List Listed) × W
  pub remove : Text → W → Option Error × W
  pub inspect : Text → W → Inspected × W

-- The keys of the set `targets`.
unfoldable pub targets_of : {W : Type 0} → List (Registration W) → List Text
targets_of [] = []
targets_of (reg ∷ regs) =
    let rest = targets_of regs in if is_nil reg.name then rest else reg.name ∷ rest

-- `nameMatched`.
unfoldable pub name_matched : List Text → List Text → Bool
unfolding contains trim_slash
name_matched targets [] = false
name_matched targets (raw ∷ names) = contains targets (trim_slash raw) || name_matched targets names

module _ {W : Type 0} (docker : Docker W) where
  -- The loop, for at most the given number of rounds; `none` is fuel run out.
  unfoldable pub wait_container_removed : ℕ → Text → W → Option (Option Error × W)
  wait_container_removed zero id w = none
  wait_container_removed (suc fuel) id w =
      let (seen, w') = docker.inspect id w in
      let rest = wait_container_removed fuel id w' in
      elim seen [
        | missing ↦ some (none, w')
        | broken e late ↦ some (some (if late then remove_timeout id else e), w')
        | present late ↦ if late then some (some (remove_timeout id), w') else rest
      ]

  -- The loop over the containers.
  unfoldable pub remove_matched : ℕ → List Text → List Listed → W → Option (Option Error × W)
  unfolding wait_container_removed name_matched
  remove_matched fuel targets [] w = some (none, w)
  remove_matched fuel targets (ctr ∷ ctrs) w =
      if name_matched targets ctr.names
      then (let (e, w') = docker.remove ctr.id w in
          elim e [
            | some x ↦ some (some x, w')
            | none ↦ elim (wait_container_removed fuel ctr.id w') [
              | none ↦ none
              | some r ↦
                  let (waited, w'') = r in
                  elim waited [
                    | some x ↦ some (some x, w'')
                    | none ↦ remove_matched fuel targets ctrs w''
                  ]
            ]
          ])
      else remove_matched fuel targets ctrs w

  unfoldable pub cleanup_orphans : ℕ → List (Registration W) → W → Option (Option Error × W)
  unfolding targets_of remove_matched
  cleanup_orphans fuel regs w =
      if is_nil (targets_of regs) then some (none, w) else elim (docker.connect w) [
        | some x ↦ some (some x, w)
        | none ↦
            let (listed, w') = docker.list w in
            elim listed [
              | err x ↦ some (some x, w')
              | ok ctrs ↦ remove_matched fuel (targets_of regs) ctrs w'
            ]
      ]
