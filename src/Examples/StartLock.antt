-- ===== src/Examples/StartLock.antt =====
-- Processes that want the lock of a start, on the machine of Examples/Starting.
use testcontainerd.Prelude.{
  ◌+◌, ◌*◌, ◌≡◌, ◌≢◌, refl, true, false, Bool, List, [], ◌∷◌, Option, none, some, Text, is_some,
  text_eq, arith, inl, inr, Option-cases,
}
use testcontainerd.Prelude.Dict.{lookup, insert, erase, lookup-insert_self, lookup-erase_self}
use testcontainerd.Prelude.Results.{ok}
use testcontainerd.LeaseStore.{second}
use testcontainerd.Runtime.Info.{discard, read}
use testcontainerd.Client.Machine.{Machine, opened, try_acquire_start_lock, is_stale_start_lock}
use testcontainerd.Client.StartLock.{
  trying, owning, gone, Step, tries, judges, finishes, passes, Contest, found_stale, run, owners,
}
use testcontainerd.Client.StartLock.Exclusive.{IsExcl, IsExclusive, run-IsExclusive}
use testcontainerd.Client.StartLock.Theft.{theft, theft-owners}
use testcontainerd.Examples.Box.{Box, remove_table}
use testcontainerd.Examples.Starting.{path, lock, made, machine, fresh, empty}

abbrev is_held : Box → Bool
is_held w = is_some (lookup lock w.table)

made-opens :
    (w : Box) (o : Option Text)
    → lookup lock w.table ≡ o
    → (made lock o w).0 ≡ opened
    → (is_held w ≡ false) × (is_held (made lock o w).1 ≡ true)
made-opens w none e h = (rw (e) refl, rw (lookup-insert_self lock [] w.table) refl)
made-opens w (some b) e h = ground (arith, h)

made-refuses :
    (w : Box) (o : Option Text) → (made lock o w).0 ≢ opened → is_held (made lock o w).1 ≡ is_held w
made-refuses w none h = elim (h refl) [ ]
made-refuses w (some b) h = refl

machine-IsExcl : IsExcl machine lock is_held
machine-IsExcl = record {
  mkdir_same = λ d w. refl;
  opens = λ w h. made-opens w (lookup lock w.table) refl h;
  refuses = λ w h. made-refuses w (lookup lock w.table) h;
  note_same = λ w. refl;
}

abbrev three : Contest Box
three = record { world = empty; phases = trying ∷ trying ∷ trying ∷ [] }

-- The first gets the lock and the others do not, until the first has given it back.
abbrev race : List (Step Box)
race =
    tries 0
    ∷ tries 1
    ∷ judges 2
    ∷ passes (λ w. record w { time = w.time + second })
    ∷ finishes 0
    ∷ tries 2
    ∷ []

run-IsExclusive_example :
    IsExclusive machine path is_held machine-IsExcl (run machine path race three)
unfolding owners
run-IsExclusive_example =
    run-IsExclusive machine path is_held machine-IsExcl race three
      (tt, (tt, (fresh path _, ((λ h. h), (tt, (tt, tt))))))
      record {
        one = inl refl;
        calm =
            ((λ q. ground (arith, q)), ((λ q. ground (arith, q)), ((λ q. ground (arith, q)), tt)));
      }

-- The third is the owner in the end.
third_owns : (run machine path race three).phases ≡ gone ∷ trying ∷ owning ∷ []
unfolding run lookup insert erase text_eq try_acquire_start_lock is_stale_start_lock remove_table
third_owns = refl

-- A machine on which a lock file is of the time 0.
abbrev aged : Machine Box
aged = record machine { mod_time = λ p w. ok 0 }

abbrev later : Box
later = record { time = 100 * second; table = (lock, []) ∷ [] }

aged_stale : found_stale aged path later ≡ true
unfolding is_stale_start_lock read lookup text_eq
aged_stale = refl

aged_clears : (w : Box) → is_held (discard aged.disk lock w) ≡ false
unfolding remove_table
aged_clears w = elim (Option-cases (lookup lock w.table)) [
  | inl e ↦ rw (discard, remove_table, e) (rw (e) refl)
  | inr (b, e) ↦ rw (discard, remove_table, e, lookup-erase_self lock w.table) refl
]

aged_grants : (w : Box) → is_held w ≡ false → (try_acquire_start_lock aged lock w).0 ≡ ok true
unfolding try_acquire_start_lock
aged_grants w h = elim (Option-cases (lookup lock w.table)) [
  | inl e ↦ rw (try_acquire_start_lock, e) refl
  | inr (b, e) ↦ ground (arith, h, e)
]

theft-owners_example :
    owners (run aged path theft record { world = later; phases = trying ∷ trying ∷ [] }).phases ≡ 2
theft-owners_example = theft-owners aged path is_held later aged_clears aged_grants aged_stale
