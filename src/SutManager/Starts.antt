-- ===== src/SutManager/Starts.antt =====
-- daemon/sut_manager.go, `ensureStarted`: that it ends, and that it starts one process only.
use testcontainerd.Prelude.{
  ℕ, suc, ◌*◌, ◌≤◌, ◌<◌, ◌≡◌, refl, sym, ap, ◌∙◌, subst, true, false, Option, none, some, is_some,
  Bool-cases, inl, inr, ◌⊎◌,
}
use testcontainerd.Prelude.Int.{ℤ, millisecond}
use testcontainerd.Errors.{Error}
use testcontainerd.Runtime.{Files}
use testcontainerd.SutManager.{
  SutManager, SutBootPlan, StartSutInput, Startup, ready_timeout, is_enabled, is_running_locked,
  waiting, poll_wait_ch,
}
use testcontainerd.SutManager.Boot.{ensure_started}
use testcontainerd.SutManager.Process.{System}
use testcontainerd.SutManager.Address.{normalize_probe_addrs}
use testcontainerd.SutManager.Readiness.{IsTimed, wait_limit, wait_sut_ready_ends}
use testcontainerd.SutManager.Coherent.{IsCoherent, running_some}
use testcontainerd.SutManager.Outcome.{IsFresh, Launched, Ensured, ensure_started-Ensured}

ready_timeout-boot :
    {W : Type 0} (m m' : SutManager W) → m'.boot ≡ m.boot → ready_timeout m' ≡ ready_timeout m
unfolding ready_timeout
ready_timeout-boot m m' e = simp (ready_timeout, e) refl

Launched-some :
    {W : Type 0} (fuel : ℕ) (seen : Startup) (plan : SutBootPlan W) (m idle : SutManager W)
    (r : Option (Option Error × SutManager W × W))
    → IsTimed seen.observed.rounds
    → seen.observed.begun ≤ (seen.observed.rounds 0).now
    → wait_limit (ready_timeout m) < fuel * (150 * millisecond)
    → idle.boot ≡ m.boot
    → Launched (suc fuel) seen plan idle r
    → is_some r ≡ true
unfolding Launched
Launched-some fuel seen plan m idle (some r) t b h e l = refl
Launched-some fuel seen plan m idle none t b h e l =
    let h' =
      subst (λ (d : ℤ). wait_limit d < fuel * (150 * millisecond))
        (sym (ready_timeout-boot m idle e)) h in
    let ends =
      wait_sut_ready_ends fuel seen.observed (normalize_probe_addrs plan.get_probe_addrs)
        (ready_timeout idle) t b h' in
    sym (ap is_some l) ∙ ends

Ensured-some :
    {W : Type 0} (fuel : ℕ) (seen : Startup) (m : SutManager W) (w : W)
    (r : Option (Option Error × SutManager W × W))
    → IsTimed seen.observed.rounds
    → seen.observed.begun ≤ (seen.observed.rounds 0).now
    → wait_limit (ready_timeout m) < fuel * (150 * millisecond)
    → Ensured (suc fuel) seen m w r
    → is_some r ≡ true
Ensured-some fuel seen m w r t b h (Ensured.disabled e) = refl
Ensured-some fuel seen m w r t b h (Ensured.running e) = refl
Ensured-some fuel seen m w r t b h (Ensured.launched plan idle p q c l) =
    Launched-some fuel seen plan m idle r t b h c.same_boot l

-- If each round of the probe sleeps 150 ms and the clock does not go back before the first,
-- `ensureStarted` has a result within as many rounds as the ready timeout has steps of 150 ms, and
-- two.
pub ensure_started_ends :
    {W : Type 0} (os : System W) (fs : Files W) (fuel : ℕ) (seen : Startup) (m : SutManager W)
    (input : StartSutInput) (w : W)
    → IsCoherent m
    → IsTimed seen.observed.rounds
    → seen.observed.begun ≤ (seen.observed.rounds 0).now
    → wait_limit (ready_timeout m) < fuel * (150 * millisecond)
    → is_some (ensure_started os fs (suc fuel) seen m input w) ≡ true
ensure_started_ends os fs fuel seen m input w h t b l =
    Ensured-some fuel seen m w _ t b l (ensure_started-Ensured os fs (suc fuel) seen m input w h)

-- The two ways in which a second call has nothing to do.
pub IsSettled : {W : Type 0} → SutManager W → Type 0
IsSettled m = (is_enabled m ≡ false) ⊎ (is_running_locked m ≡ (true, m))

IsFresh-IsSettled :
    {W : Type 0} (fuel : ℕ) (seen : Startup) (plan : SutBootPlan W) (m m' : SutManager W)
    → seen.left ≡ waiting
    → IsFresh fuel seen plan m m'
    → IsSettled m'
unfolding IsSettled poll_wait_ch
IsFresh-IsSettled fuel seen plan m m' e f =
    inr (running_some m' f.holds_cmd f.is_started (f.holds_channel ∙ ap some e))

SuccessSettled : {W : Type 0} → Option (Option Error × SutManager W × W) → Type 0
SuccessSettled none = Unit
SuccessSettled (some (some e, m, w)) = Unit
SuccessSettled (some (none, m, w)) = IsSettled m

Launched-SuccessSettled :
    {W : Type 0} (fuel : ℕ) (seen : Startup) (plan : SutBootPlan W) (m : SutManager W)
    (r : Option (Option Error × SutManager W × W))
    → seen.left ≡ waiting
    → Launched fuel seen plan m r
    → SuccessSettled r
unfolding Launched SuccessSettled
Launched-SuccessSettled fuel seen plan m none e l = tt
Launched-SuccessSettled fuel seen plan m (some (some x, m', w)) e l = tt
Launched-SuccessSettled fuel seen plan m (some (none, m', w)) e l =
    IsFresh-IsSettled fuel seen plan m m' e l

Ensured-SuccessSettled :
    {W : Type 0} (fuel : ℕ) (seen : Startup) (m : SutManager W) (w : W)
    (r : Option (Option Error × SutManager W × W))
    → seen.left ≡ waiting
    → Ensured fuel seen m w r
    → SuccessSettled r
unfolding SuccessSettled IsSettled
Ensured-SuccessSettled fuel seen m w r e (Ensured.disabled d) = inl d
Ensured-SuccessSettled fuel seen m w r e (Ensured.running d) = inr d
Ensured-SuccessSettled fuel seen m w r e (Ensured.launched plan idle p q c l) =
    Launched-SuccessSettled fuel seen plan idle r e l

settled_again :
    {W : Type 0} (os : System W) (fs : Files W) (fuel : ℕ) (seen : Startup) (m : SutManager W)
    (input : StartSutInput) (w : W)
    → IsSettled m
    → ensure_started os fs fuel seen m input w ≡ some (none, m, w)
unfolding IsSettled ensure_started
settled_again os fs fuel seen m input w (inl e) = rw (ensure_started, e) refl
settled_again os fs fuel seen m input w (inr e) = elim (Bool-cases (is_enabled m)) [
  | inl d ↦ rw (ensure_started, d, e) refl
  | inr d ↦ rw (ensure_started, d) refl
]

-- After a call of `ensureStarted` that succeeds, as long as the process does not exit, a further
-- call, whatever it meets, succeeds at once and leaves the manager and the world as they are: no
-- second process is started.
pub ensure_started_twice :
    {W : Type 0} (os : System W) (fs : Files W) (fuel again : ℕ) (seen seen' : Startup)
    (m m' : SutManager W) (input input' : StartSutInput) (w w' w'' : W)
    → IsCoherent m
    → seen.left ≡ waiting
    → ensure_started os fs fuel seen m input w ≡ some (none, m', w')
    → ensure_started os fs again seen' m' input' w'' ≡ some (none, m', w'')
unfolding SuccessSettled
ensure_started_twice os fs fuel again seen seen' m m' input input' w w' w'' h e s =
    settled_again os fs again seen' m' input' w'' (
      subst (λ o. SuccessSettled o) s
        (Ensured-SuccessSettled fuel seen m w _ e
          (ensure_started-Ensured os fs fuel seen m input w h)))
