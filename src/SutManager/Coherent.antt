-- ===== src/SutManager/Coherent.antt =====
-- daemon/sut_manager.go: the command and its channel are set and cleared together.
use testcontainerd.Prelude.{
  ◌≡◌, refl, Bool, true, false, Option, none, some, is_some, inl, inr, ◌⊎◌,
}
use testcontainerd.SutManager.{
  SutManager, Channel, waiting, finished, closed, poll_wait_ch, is_running_locked,
}
use testcontainerd.SutManager.Process.{Command}

-- A command is there with its process and its channel, or neither is.
unfoldable pub Paired : Option Command → Option Channel → Type 0
Paired none none = Unit
Paired none (some ch) = ⊥
Paired (some cmd) none = ⊥
Paired (some cmd) (some ch) = is_some cmd.process ≡ true

unfoldable pub IsCoherent : {W : Type 0} → SutManager W → Type 0
unfolding Paired
IsCoherent m = Paired m.cmd m.wait_ch

-- `m` has no command and no channel.
unfoldable pub IsIdle : {W : Type 0} → SutManager W → Type 0
IsIdle m = (m.cmd ≡ none) × (m.wait_ch ≡ none)

-- `m'` is `m` without a command and its channel; only the last error may differ besides.
pub record IsCleared {W : Type 0} (m m' : SutManager W) : Type 0 where
  pub is_idle : IsIdle m'
  pub same_boot : m'.boot ≡ m.boot
  pub same_start : m'.started_at ≡ m.started_at
  pub same_count : m'.restart_count ≡ m.restart_count

-- What `isRunningLocked` may do to the manager: nothing, or forget the process and the error.
pub data Polled {W : Type 0} (m : SutManager W) : Bool × SutManager W → Type 0 where
  runs : Polled m (true, m)
  cleared : {m' : SutManager W} → IsCleared m m' → Polled m (false, m')

poll-Polled : {W : Type 0} (m : SutManager W) (ch : Channel) → Polled m (poll_wait_ch m ch)
unfolding IsIdle poll_wait_ch
poll-Polled m waiting = runs
poll-Polled m (finished none) =
    cleared
      record { is_idle = (refl, refl); same_boot = refl; same_start = refl; same_count = refl }
poll-Polled m (finished (some e)) =
    cleared
      record { is_idle = (refl, refl); same_boot = refl; same_start = refl; same_count = refl }
poll-Polled m closed =
    cleared
      record { is_idle = (refl, refl); same_boot = refl; same_start = refl; same_count = refl }

pub running_none : {W : Type 0} (m : SutManager W) → m.cmd ≡ none → is_running_locked m ≡ (false, m)
unfolding is_running_locked
running_none m e = simp e

pub running_some :
    {W : Type 0} (m : SutManager W) {cmd : Command} {ch : Channel}
    → m.cmd ≡ some cmd
    → is_some cmd.process ≡ true
    → m.wait_ch ≡ some ch
    → is_running_locked m ≡ poll_wait_ch m ch
unfolding is_running_locked
running_some m e p f = simp (e, p, f)

-- The two cases of a coherent manager.
pub Coherent-cases :
    {W : Type 0} (m : SutManager W)
    → IsCoherent m
    → IsIdle m
      ⊎ ((cmd : Command) × ((ch : Channel) × ((m.cmd ≡ some cmd)
              × ((is_some cmd.process ≡ true) × (m.wait_ch ≡ some ch)))))
unfolding IsCoherent IsIdle Paired
Coherent-cases m h = split m.cmd m.wait_ch refl refl h
  where
    split :
        (c : Option Command) (ch : Option Channel)
        → m.cmd ≡ c
        → m.wait_ch ≡ ch
        → Paired c ch
        → IsIdle m
          ⊎ ((cmd : Command) × ((ch : Channel) × ((m.cmd ≡ some cmd)
                  × ((is_some cmd.process ≡ true) × (m.wait_ch ≡ some ch)))))
    split none none p q h = inl (p, q)
    split none (some ch) p q h = elim h [ ]
    split (some cmd) none p q h = elim h [ ]
    split (some cmd) (some ch) p q h = inr (cmd, (ch, (p, (h, q))))

-- `isRunningLocked` answers yes and changes nothing, or answers no and leaves no command and channel,
-- with the plan, the start time and the count of restarts as they were.
pub is_running_locked-Polled :
    {W : Type 0} (m : SutManager W) → IsCoherent m → Polled m (is_running_locked m)
unfolding IsIdle
is_running_locked-Polled m h = elim (Coherent-cases m h) [
  | inl i ↦
      rw (running_none m i.0)
        (cleared record { is_idle = i; same_boot = refl; same_start = refl; same_count = refl })
  | inr (cmd, (ch, (e, (p, f)))) ↦ rw (running_some m e p f) (poll-Polled m ch)
]
