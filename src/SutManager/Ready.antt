-- ===== src/SutManager/Ready.antt =====
-- daemon/sut_manager.go, `waitSUTReady`: the loop that probes the service. What one round of the
-- loop meets in the world is a record of observations, and a run of the loop takes them in turn.
use testcontainerd.Prelude.{
  ℕ, zero, suc, ◌*◌, Bool, List, [], ◌∷◌, Option, none, some, Text, ltb, is_nil, if◌then◌else◌,
}
use testcontainerd.Prelude.Int.{ℤ, is_pos, add_duration, pos}
use testcontainerd.Errors.{
  Error, exited_before_startup, exited_before_startup_with, exited_before_ready,
  exited_before_ready_with, ready_timeout,
}
use testcontainerd.LeaseStore.{second}

-- What a `select` finds: the context done, with its error; a value from `waitCh`, with the error of
-- `Wait` (none also for the closed channel); or nothing.
pub data Poll : Type 0 where
  ctx_done : Error → Poll
  exited : Option Error → Poll
  quiet : Poll

-- Which addresses answer, what the `select` finds, and the clock at the test of the deadline.
pub record Round : Type 0 where
  pub answers : Text → Bool
  pub poll : Poll
  pub now : ℕ

unfoldable pub failed_addrs : (Text → Bool) → List Text → List Text
failed_addrs answers [] = []
failed_addrs answers (a ∷ addrs) =
    let rest = failed_addrs answers addrs in if answers a then rest else a ∷ rest

-- With no address to probe: the process must not exit within 400 ms.
unfoldable pub check_startup : Poll → Option Error
check_startup (ctx_done e) = some e
check_startup (exited none) = some exited_before_startup
check_startup (exited (some e)) = some (exited_before_startup_with e)
check_startup quiet = none

-- The rest of one round, once the failed addresses are known: `none` sleeps and goes on.
unfoldable pub judge : Poll → List Text → Bool → Option (Option Error)
judge (ctx_done e) failed late = some (some e)
judge (exited none) failed late = some (some exited_before_ready)
judge (exited (some e)) failed late = some (some (exited_before_ready_with e))
judge quiet failed late = if late then some (some (ready_timeout failed)) else none

-- One round: `none` goes on, `some none` is ready, `some (some e)` fails.
unfoldable pub probe : List Text → ℕ → Round → Option (Option Error)
unfolding failed_addrs judge
probe addrs deadline r =
    let failed = failed_addrs r.answers addrs in
    if is_nil failed then some none else judge r.poll failed (ltb deadline r.now)

-- The loop from round k on, for at most the given number of rounds.
unfoldable pub probe_loop : ℕ → List Text → ℕ → (ℕ → Round) → ℕ → Option (Option Error)
unfolding probe
probe_loop zero addrs deadline rounds k = none
probe_loop (suc fuel) addrs deadline rounds k = elim (probe addrs deadline (rounds k)) [
  | none ↦ probe_loop fuel addrs deadline rounds (suc k)
  | some r ↦ some r
]

-- What a call of `waitSUTReady` meets: the first `select` (with no address), the clock when the
-- deadline is set, and the rounds.
pub record Observed : Type 0 where
  pub startup : Poll
  pub begun : ℕ
  pub rounds : ℕ → Round

-- The addresses are already normalised. `none`: the fuel ran out.
unfoldable pub wait_sut_ready : ℕ → Observed → List Text → ℤ → Option (Option Error)
unfolding check_startup probe_loop
wait_sut_ready fuel seen addrs timeout =
    if is_nil addrs
    then some (check_startup seen.startup)
    else let limit = if is_pos timeout then timeout else pos (8 * second) in
      probe_loop fuel addrs (add_duration seen.begun limit) seen.rounds 0
