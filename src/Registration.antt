-- ===== src/Registration.antt =====
-- container/options.go, and the check of the registrations that container/bundle.go and
-- testcontainerd.go both make.
pub mod Accepted
use testcontainerd.Prelude.{
  ℕ, Bool, true, false, ◌||◌, List, [], ◌∷◌, Option, none, some, Text, text_eq, trim_space, is_nil,
  is_some, if◌then◌else◌,
}
use testcontainerd.Prelude.Results.{Result, ok, err}
use testcontainerd.Errors.{Error, name_empty, start_nil, duplicated_name}

-- A container handle of testcontainers-go; a nil handle is `none`.
abbrev pub Container : Type 0
Container = ℕ

-- One container of the user's: `start` and `init` act on the world, and a nil function is `none`.
-- `start` is told whether its context is done.
pub record Registration (W : Type 0) : Type 0 where
  pub name : Text
  pub start : Option (Bool → W → Result Error (Option Container) × W)
  pub init : Option (W → Option Error × W)

-- Is the name a key of the set `seen`?
unfoldable pub contains : List Text → Text → Bool
contains [] name = false
contains (s ∷ seen) name = text_eq s name || contains seen name

module _ {W : Type 0} where
  -- The body of the loop: what is wrong with one registration, after those that were seen.
  unfoldable pub check_one : List Text → Registration W → Option Error
  unfolding contains
  check_one seen reg =
      let name = trim_space reg.name in
      if is_nil name
      then some name_empty
      else if is_some reg.start
      then (if contains seen name then some (duplicated_name name) else none)
      else some (start_nil name)

  unfoldable pub check_registrations : List Text → List (Registration W) → Option Error
  unfolding check_one
  check_registrations seen [] = none
  check_registrations seen (reg ∷ regs) = elim (check_one seen reg) [
    | some e ↦ some e
    | none ↦ check_registrations (trim_space reg.name ∷ seen) regs
  ]
