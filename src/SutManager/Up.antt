-- ===== src/SutManager/Up.antt =====
-- daemon/sut_manager.go, `ensureStarted`: a success leaves the service up.
use testcontainerd.Prelude.{
  ℕ, ◌≡◌, refl, sym, ap, ◌∙◌, true, false, Option, none, some, arith, is_some, ◌⊎◌, inl, inr,
}
use testcontainerd.Errors.{Error}
use testcontainerd.SutManager.{SutManager, SutBootPlan, Startup, is_enabled, is_running_locked}
use testcontainerd.SutManager.Coherent.{IsCoherent, IsIdle, Coherent-cases, running_none}
use testcontainerd.SutManager.Outcome.{Launched, Ensured}

-- The service is not managed, or has a process.
unfoldable pub IsUp : {W : Type 0} → SutManager W → Type 0
IsUp m = (is_enabled m ≡ false) ⊎ (is_some m.cmd ≡ true)

running_up :
    {W : Type 0} (m : SutManager W)
    → IsCoherent m
    → is_running_locked m ≡ (true, m)
    → is_some m.cmd ≡ true
unfolding IsIdle
running_up m h e = elim (Coherent-cases m h) [
  | inl i ↦ ground (arith, ap (λ r. r.0) (sym (running_none m i.0) ∙ e))
  | inr (cmd, (ch, (c, rest))) ↦ rw (c) refl
]

-- A success leaves the service up.
unfoldable pub SuccessUp : {W : Type 0} → Option (Option Error × SutManager W × W) → Type 0
SuccessUp none = Unit
SuccessUp (some (some e, m, w)) = Unit
SuccessUp (some (none, m, w)) = IsUp m

Launched-SuccessUp :
    {W : Type 0} (fuel : ℕ) (seen : Startup) (plan : SutBootPlan W) (m : SutManager W)
    (r : Option (Option Error × SutManager W × W))
    → Launched fuel seen plan m r
    → SuccessUp r
unfolding Launched SuccessUp IsUp
Launched-SuccessUp fuel seen plan m none l = tt
Launched-SuccessUp fuel seen plan m (some (some x, m', w)) l = tt
Launched-SuccessUp fuel seen plan m (some (none, m', w)) l = inr (rw (l.holds_cmd) refl)

pub Ensured-SuccessUp :
    {W : Type 0} (fuel : ℕ) (seen : Startup) (m : SutManager W) (w : W)
    (r : Option (Option Error × SutManager W × W))
    → IsCoherent m
    → Ensured fuel seen m w r
    → SuccessUp r
unfolding SuccessUp IsUp
Ensured-SuccessUp fuel seen m w r h (Ensured.disabled d) = inl d
Ensured-SuccessUp fuel seen m w r h (Ensured.running e) = inr (running_up m h e)
Ensured-SuccessUp fuel seen m w r h (Ensured.launched plan idle p q c l) =
    Launched-SuccessUp fuel seen plan idle r l
