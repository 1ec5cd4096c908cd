-- ===== src/Examples/Cleanup.antt =====
-- Three containers, of which two have names of the daemon's.
use testcontainerd.Prelude.{
  ◌≡◌, refl, List, [], ◌∷◌, Option, none, some, Text, lit, text_eq, if◌then◌else◌,
}
use testcontainerd.Errors.{Error, external}
use testcontainerd.Registration.{Registration}
use testcontainerd.Cleanup.{Listed, cleanup_orphans}
use testcontainerd.Cleanup.Swept.{
  recording, orphans, up_to, first_failure, cleanup_orphans-recording,
}

abbrev named : Text → Registration (List Text)
named name = record { name = name; start = none; init = none }

abbrev regs : List (Registration (List Text))
regs = named (lit "mysql") ∷ named [] ∷ named (lit "redis") ∷ []

abbrev left_over : List Listed
left_over =
    record { id = lit "a"; names = lit "/mysql" ∷ [] }
    ∷ record { id = lit "b"; names = lit "/other" ∷ [] }
    ∷ record { id = lit "c"; names = lit "/x" ∷ lit "/redis" ∷ [] }
    ∷ []

abbrev fails : Text → Option Error
fails id = if text_eq id (lit "a") then none else some (external (lit "in use"))

cleanup_orphans-recording_example :
    cleanup_orphans (recording left_over fails) 1 regs []
    ≡ some (first_failure fails (orphans regs left_over), up_to fails (orphans regs left_over))
cleanup_orphans-recording_example = cleanup_orphans-recording 0 left_over fails regs []

both_tried :
    cleanup_orphans (recording left_over fails) 1 regs []
    ≡ some (some (external (lit "in use")), lit "a" ∷ lit "c" ∷ [])
unfolding cleanup_orphans text_eq
both_tried = refl
