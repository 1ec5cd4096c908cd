-- ===== src/SutManager/Runs.antt =====
-- daemon/sut_manager.go: the calls of the daemon and the exits of the process, one after the other.
use testcontainerd.Prelude.{
  ℕ, zero, suc, ◌≡◌, refl, sym, subst, Bool, true, false, List, [], ◌∷◌, Option, none, some,
  Option-cases, Bool-cases, inl, inr,
}
use testcontainerd.Prelude.Int.{ℤ, is_pos, pos, negsuc}
use testcontainerd.Errors.{Error, message}
use testcontainerd.Runtime.{Files}
use testcontainerd.SutManager.{
  pid_of, SutManager, SutBootPlan, StartSutInput, Startup, StopSelect, snapshot, new_sut_manager,
  ready_timeout, idle_ttl, grace_period, or_default, is_enabled, is_running_locked,
}
use testcontainerd.SutManager.Boot.{ensure_started}
use testcontainerd.SutManager.Halting.{same_process, stop, reap}
use testcontainerd.SutManager.Process.{Command, System}
use testcontainerd.SutManager.Clearing.{stop-IsCleared}
use testcontainerd.SutManager.Coherent.{
  Paired, IsCoherent, IsIdle, Polled, Coherent-cases, is_running_locked-Polled,
}
use testcontainerd.SutManager.Outcome.{IsFresh, Launched, Ensured, ensure_started-Ensured}

or_default-is_pos : (n : ℕ) (d : ℤ) → is_pos (or_default (suc n) d) ≡ true
unfolding or_default
or_default-is_pos n (pos zero) = refl
or_default-is_pos n (pos (suc d)) = refl
or_default-is_pos n (negsuc d) = refl

-- Whatever the plan gives, and without one, the three durations are positive.
pub durations_positive :
    {W : Type 0} (m : SutManager W)
    → (is_pos (idle_ttl m) ≡ true)
      × ((is_pos (grace_period m) ≡ true) × (is_pos (ready_timeout m) ≡ true))
unfolding idle_ttl grace_period ready_timeout
durations_positive m = elim (Option-cases m.boot) [
  | inl b ↦ rw (idle_ttl, grace_period, ready_timeout, b) (refl, (refl, refl))
  | inr (plan, b) ↦
      rw (idle_ttl, grace_period, ready_timeout, b)
        (or_default-is_pos _ _, (or_default-is_pos _ _, or_default-is_pos _ _))
]

IsIdle-IsCoherent : {W : Type 0} (m : SutManager W) → IsIdle m → IsCoherent m
unfolding IsCoherent IsIdle Paired
IsIdle-IsCoherent m i = simp (i.0, i.1) tt

IsFresh-IsCoherent :
    {W : Type 0} {fuel : ℕ} {seen : Startup} {plan : SutBootPlan W} (m m' : SutManager W)
    → IsFresh fuel seen plan m m'
    → IsCoherent m'
unfolding IsCoherent Paired
IsFresh-IsCoherent m m' f = simp (f.holds_cmd, f.holds_channel) f.is_started

-- What an outcome leaves is a coherent manager.
pub EndsCoherent : {W : Type 0} → Option (Option Error × SutManager W × W) → Type 0
EndsCoherent none = Unit
EndsCoherent (some (e, m, w)) = IsCoherent m

Launched-EndsCoherent :
    {W : Type 0} (fuel : ℕ) (seen : Startup) (plan : SutBootPlan W) (m : SutManager W)
    (r : Option (Option Error × SutManager W × W))
    → IsIdle m
    → Launched fuel seen plan m r
    → EndsCoherent r
unfolding Launched EndsCoherent IsIdle
Launched-EndsCoherent fuel seen plan m none i l = tt
Launched-EndsCoherent fuel seen plan m (some (none, m', w)) i l = IsFresh-IsCoherent m m' l
Launched-EndsCoherent {W} fuel seen plan m (some (some e, m', w)) i l =
    subst (λ (x : SutManager W). IsCoherent x) (sym l)
      (IsIdle-IsCoherent (record m { last_err = message e }) i)

Ensured-EndsCoherent :
    {W : Type 0} {fuel : ℕ} {seen : Startup} {m : SutManager W} {w : W}
    {r : Option (Option Error × SutManager W × W)}
    → IsCoherent m
    → Ensured fuel seen m w r
    → EndsCoherent r
unfolding EndsCoherent
Ensured-EndsCoherent h (Ensured.disabled e) = h
Ensured-EndsCoherent h (Ensured.running e) = h
Ensured-EndsCoherent h (Ensured.launched {r} plan idle b p c l) =
    Launched-EndsCoherent _ _ plan idle r c.is_idle l

-- A call of the daemon, with what it meets, or an exit of the process.
pub data Op : Type 0 where
  ensures : Startup → StartSutInput → Op
  stops : StopSelect → Op
  reads : Op
  reaps : Option Error → Command → Op

-- `none`: the fuel of a probe ran out.
pub step : {W : Type 0} → System W → Files W → ℕ → Op → SutManager W × W → Option (SutManager W × W)
step os fs fuel (ensures seen input) (m, w) = elim (ensure_started os fs fuel seen m input w) [
  | none ↦ none
  | some r ↦ some (r.1, r.2)
]
step os fs fuel (stops chosen) (m, w) = (let r = stop os chosen m w in some (r.1, r.2))
step os fs fuel reads (m, w) = some ((snapshot m).1, w)
step os fs fuel (reaps e cmd) (m, w) = some (reap os e cmd m w)

Polled-IsCoherent :
    {W : Type 0} (m : SutManager W) (r : Bool × SutManager W)
    → IsCoherent m
    → Polled m r
    → IsCoherent r.1
Polled-IsCoherent m r h (Polled.runs) = h
Polled-IsCoherent m r h (Polled.cleared {m'} c) = IsIdle-IsCoherent m' c.is_idle

reap-IsCoherent :
    {W : Type 0} (os : System W) (e : Option Error) (ended : Command) (m : SutManager W) (w : W)
    → IsCoherent m
    → IsCoherent (reap os e ended m w).0
unfolding reap IsCoherent Paired IsIdle
reap-IsCoherent os e ended m w h = elim (Coherent-cases m h) [
  | inl i ↦
      let n : same_process (pid_of m.cmd) ended.process ≡ false = rw (i.0) refl in simp (reap, n) h
  | inr (cmd, (ch, (c, (p, f)))) ↦ elim (Bool-cases (same_process (pid_of m.cmd) ended.process)) [
    | inl s ↦ simp (reap, s) (rw (c) p)
    | inr s ↦ simp (reap, s) h
  ]
]

stop-IsCoherent :
    {W : Type 0} (os : System W) (chosen : StopSelect) (m : SutManager W) (w : W)
    → IsCoherent m
    → IsCoherent (stop os chosen m w).1
unfolding stop
stop-IsCoherent os chosen m w h = elim (Bool-cases (is_enabled m)) [
  | inl e ↦ IsIdle-IsCoherent (stop os chosen m w).1 (stop-IsCleared os chosen m w h e).is_idle
  | inr e ↦ rw (stop, e) h
]

snapshot-IsCoherent : {W : Type 0} (m : SutManager W) → IsCoherent m → IsCoherent (snapshot m).1
unfolding snapshot
snapshot-IsCoherent m h = Polled-IsCoherent m (is_running_locked m) h (is_running_locked-Polled m h)

-- What follows in a run is coherent, where it has a result.
pub StaysCoherent : {W : Type 0} → Option (SutManager W × W) → Type 0
StaysCoherent none = Unit
StaysCoherent (some (m, w)) = IsCoherent m

ended :
    {W : Type 0} {o : Option (Option Error × SutManager W × W)}
    {r : Option Error × SutManager W × W}
    → o ≡ some r
    → EndsCoherent o
    → IsCoherent r.1
unfolding EndsCoherent
ended e h = subst (λ o. EndsCoherent o) e h

stays :
    {W : Type 0} {o : Option (SutManager W × W)} {s : SutManager W × W}
    → o ≡ some s
    → StaysCoherent o
    → IsCoherent s.0
unfolding StaysCoherent
stays e h = subst (λ o. StaysCoherent o) e h

-- Every call of the daemon, on each of its branches, and every exit of the process keeps the
-- command and its channel set together, the command with a process.
pub step-StaysCoherent :
    {W : Type 0} (os : System W) (fs : Files W) (fuel : ℕ) (op : Op) (m : SutManager W) (w : W)
    → IsCoherent m
    → StaysCoherent (step os fs fuel op (m, w))
unfolding step StaysCoherent EndsCoherent
step-StaysCoherent os fs fuel (ensures seen input) m w h =
    elim (Option-cases (ensure_started os fs fuel seen m input w)) [
      | inl e ↦ rw (step, e) tt
      | inr (r, e) ↦
          rw (step, e)
            (ended e (Ensured-EndsCoherent h (ensure_started-Ensured os fs fuel seen m input w h)))
    ]
step-StaysCoherent os fs fuel (stops chosen) m w h = stop-IsCoherent os chosen m w h
step-StaysCoherent os fs fuel reads m w h = snapshot-IsCoherent m h
step-StaysCoherent os fs fuel (reaps e cmd) m w h = reap-IsCoherent os e cmd m w h

pub run :
    {W : Type 0} → System W → Files W → ℕ → List Op → SutManager W × W → Option (SutManager W × W)
run os fs fuel [] s = some s
run os fs fuel (op ∷ ops) s = elim (step os fs fuel op s) [
  | none ↦ none
  | some s' ↦ run os fs fuel ops s'
]

run-StaysCoherent :
    {W : Type 0} (os : System W) (fs : Files W) (fuel : ℕ) (ops : List Op) (s : SutManager W × W)
    → IsCoherent s.0
    → StaysCoherent (run os fs fuel ops s)
unfolding run StaysCoherent
run-StaysCoherent os fs fuel [] s h = h
run-StaysCoherent os fs fuel (op ∷ ops) s h = elim (Option-cases (step os fs fuel op s)) [
  | inl e ↦ rw (run, e) tt
  | inr (s', e) ↦
      rw (run, e)
        (run-StaysCoherent os fs fuel ops s' (stays e (step-StaysCoherent os fs fuel op s.0 s.1 h)))
]

-- Whatever is called and whenever the process exits, from the new manager on, the manager has a
-- command exactly when it has a channel, and the command then has a process.
pub run-new-StaysCoherent :
    {W : Type 0} (os : System W) (fs : Files W) (fuel : ℕ) (ops : List Op)
    (boot : Option (SutBootPlan W)) (w : W)
    → StaysCoherent (run os fs fuel ops (new_sut_manager boot, w))
unfolding IsCoherent Paired
run-new-StaysCoherent os fs fuel ops boot w =
    run-StaysCoherent os fs fuel ops (new_sut_manager boot, w) tt
