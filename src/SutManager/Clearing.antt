-- ===== src/SutManager/Clearing.antt =====
-- daemon/sut_manager.go, `stop`: that the manager forgets the process.
use testcontainerd.Prelude.{◌≡◌, refl, Bool, true, Option-cases, inl, inr}
use testcontainerd.SutManager.{
  SutManager, StopSelect, ctx_ended, grace_over, exits, is_enabled, is_running_locked, forget,
}
use testcontainerd.SutManager.Halting.{stop, stop_wait, halt}
use testcontainerd.SutManager.Process.{Command, System}
use testcontainerd.SutManager.Coherent.{
  IsCoherent, IsIdle, IsCleared, Polled, is_running_locked-Polled,
}

stop_wait-IsCleared :
    {W : Type 0} (os : System W) (chosen : StopSelect) (m : SutManager W) (cmd : Command) (w : W)
    → IsCleared m (stop_wait os chosen (forget m) cmd w).1
unfolding stop_wait IsIdle
stop_wait-IsCleared os (ctx_ended e) m cmd w = record {
  is_idle = (refl, refl);
  same_boot = refl;
  same_start = refl;
  same_count = refl;
}
stop_wait-IsCleared os grace_over m cmd w = record {
  is_idle = (refl, refl);
  same_boot = refl;
  same_start = refl;
  same_count = refl;
}
stop_wait-IsCleared os exits m cmd w = record {
  is_idle = (refl, refl);
  same_boot = refl;
  same_start = refl;
  same_count = refl;
}

forgotten-IsCleared : {W : Type 0} (m : SutManager W) → IsCleared m (forget m)
unfolding IsIdle
forgotten-IsCleared m = record {
  is_idle = (refl, refl);
  same_boot = refl;
  same_start = refl;
  same_count = refl;
}

forget-IsCleared : {W : Type 0} (m m' : SutManager W) → IsCleared m m' → IsCleared m (forget m')
unfolding IsIdle
forget-IsCleared m m' c = record {
  is_idle = (refl, refl);
  same_boot = c.same_boot;
  same_start = c.same_start;
  same_count = c.same_count;
}

halt-IsCleared :
    {W : Type 0} (os : System W) (chosen : StopSelect) (m : SutManager W) (w : W)
    → IsCleared m (halt os chosen m w).1
unfolding halt
halt-IsCleared os chosen m w = elim (Option-cases m.cmd) [
  | inl c ↦ simp (halt, c) (forgotten-IsCleared m)
  | inr (cmd, c) ↦ simp (halt, c) (stop_wait-IsCleared os chosen m cmd _)
]

stop_running :
    {W : Type 0} (os : System W) (chosen : StopSelect) (m : SutManager W) (w : W)
    (r : Bool × SutManager W)
    → is_enabled m ≡ true
    → is_running_locked m ≡ r
    → Polled m r
    → IsCleared m (stop os chosen m w).1
unfolding stop
stop_running os chosen m w r e p (Polled.cleared {m'} c) = rw (stop, e, p) (forget-IsCleared m m' c)
stop_running os chosen m w r e p (Polled.runs) = rw (stop, e, p) (halt-IsCleared os chosen m w)

-- `stop` under an enabled plan, whatever its `select` finds, leaves the manager without a command and
-- channel, and keeps the plan, the start time and the count of restarts.
pub stop-IsCleared :
    {W : Type 0} (os : System W) (chosen : StopSelect) (m : SutManager W) (w : W)
    → IsCoherent m
    → is_enabled m ≡ true
    → IsCleared m (stop os chosen m w).1
stop-IsCleared os chosen m w h e =
    stop_running os chosen m w (is_running_locked m) e refl (is_running_locked-Polled m h)
