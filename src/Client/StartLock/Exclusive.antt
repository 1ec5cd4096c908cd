-- ===== src/Client/StartLock/Exclusive.antt =====
-- client/autostart.go: how many processes own the lock of a start.
use testcontainerd.Prelude.{
  ℕ, zero, suc, ◌+◌, ◌≡◌, ◌≢◌, refl, sym, ◌∙◌, ap, Bool, true, false, List, [], ◌∷◌, Option, none,
  some, Text, get_elem?, set, ◌⊎◌, inl, inr, arith, Option-cases, All, All-set, All-get_elem?,
}
use testcontainerd.Prelude.Results.{Result, ok, err}
use testcontainerd.Errors.{Error}
use testcontainerd.Runtime.Paths.{dir}
use testcontainerd.Client.Machine.{
  Machine, Opened, opened, exists_already, not_opened, start_lock_path, try_acquire_start_lock,
}
use testcontainerd.Client.StartLock.{
  Phase, trying, judging, owning, gone, Step, tries, judges, removes, finishes, passes, Contest,
  after_try, move_to, found_stale, act, step, run, owners,
}

-- `held` says whether the lock file is there: `O_EXCL` opens it only if it is not, and then it is.
pub record IsExcl {W : Type 0} (m : Machine W) (lock : Text) (held : W → Bool) : Type 0 where
  pub mkdir_same : (d : Text) (w : W) → held (m.disk.files.mkdir_all d w).1 ≡ held w
  pub opens :
      (w : W)
      → (m.open_excl lock w).0 ≡ opened
      → (held w ≡ false) × (held (m.open_excl lock w).1 ≡ true)
  pub refuses : (w : W) → (m.open_excl lock w).0 ≢ opened → held (m.open_excl lock w).1 ≡ held w
  pub note_same : (w : W) → held (m.note_owner lock w) ≡ held w

abbrev weight : Phase → ℕ
weight owning = 1
weight p = 0

owners-cons : (p : Phase) (ps : List Phase) → owners (p ∷ ps) ≡ weight p + owners ps
unfolding owners
owners-cons trying ps = omega arith
owners-cons judging ps = omega arith
owners-cons owning ps = omega arith
owners-cons gone ps = omega arith

owners-set :
    (ps : List Phase) (i : ℕ) (p q : Phase)
    → get_elem? ps i ≡ some p
    → owners (set ps i q) + weight p ≡ owners ps + weight q
owners-set [] i p q e = ground (arith, e)
owners-set (r ∷ ps) zero p q e =
    let same : r ≡ p = ground (arith, e) in
    omega (arith, owners-cons r ps, owners-cons q ps, ap weight same)
owners-set (r ∷ ps) (suc i) p q e =
    omega (arith, owners-cons r ps, owners-cons r (set ps i q), owners-set ps i p q e)

after_try_light :
    (r : Result Error Bool)
    → after_try r ≢ owning
    → (weight (after_try r) ≡ 0) × (after_try r ≢ judging)
after_try_light (err e) n = (refl, λ q. ground (arith, q))
after_try_light (ok true) n = elim (n refl) [ ]
after_try_light (ok false) n = (refl, λ q. ground (arith, q))

Opened-cases :
    (o : Opened) → (o ≡ opened) ⊎ ((o ≡ exists_already) ⊎ ((x : Error) × (o ≡ not_opened x)))
Opened-cases opened = inl refl
Opened-cases exists_already = inr (inl refl)
Opened-cases (not_opened x) = inr (inr (x, refl))

module _ {W : Type 0} (m : Machine W) (path : Text) (held : W → Bool)
    (laws : IsExcl m (start_lock_path path) held) where
  -- The lock of a world after a try.
  data Tried (w : W) : Result Error Bool × W → Type 0 where
    got : {w' : W} → held w ≡ false → held w' ≡ true → Tried w (ok true, w')
    missed :
        {r : Result Error Bool} {w' : W} → after_try r ≢ owning → held w' ≡ held w → Tried w (r, w')

  try-Tried : (w : W) → Tried w (try_acquire_start_lock m (start_lock_path path) w)
  unfolding try_acquire_start_lock
  try-Tried w =
      let lock = start_lock_path path in
      let w1 = (m.disk.files.mkdir_all (dir lock) w).1 in
      let s : held w1 ≡ held w = laws.mkdir_same (dir lock) w in
      elim (Option-cases (m.disk.files.mkdir_all (dir lock) w).0) [
        | inr (x, e) ↦ rw (try_acquire_start_lock, e) (missed (λ q. ground (arith, q)) s)
        | inl e ↦ elim (Opened-cases (m.open_excl lock w1).0) [
          | inl o ↦
              let (a, b) = laws.opens w1 o in
              rw (try_acquire_start_lock, e, o)
                (got (sym s ∙ a) (laws.note_same (m.open_excl lock w1).1 ∙ b))
          | inr (inl o) ↦
              rw (try_acquire_start_lock, e, o)
                (missed (λ q. ground (arith, q)) (laws.refuses w1 (λ q. ground (arith, q, o)) ∙ s))
          | inr (inr (x, o)) ↦
              rw (try_acquire_start_lock, e, o)
                (missed (λ q. ground (arith, q)) (laws.refuses w1 (λ q. ground (arith, q, o)) ∙ s))
        ]
      ]

  -- At most one process owns the lock, and if one does, the lock file is there; no process is about
  -- to remove it as stale.
  pub record IsExclusive (c : Contest W) : Type 0 where
    pub one : (owners c.phases ≡ 0) ⊎ ((owners c.phases ≡ 1) × (held c.world ≡ true))
    pub calm : All (λ (p : Phase). p ≢ judging) c.phases

  -- The lock is not found stale, and nothing else removes it.
  abbrev pub Fair : Step W → Contest W → Type 0
  Fair (tries i) c = Unit {0}
  Fair (judges i) c = found_stale m path c.world ≡ false
  Fair (removes i) c = Unit {0}
  Fair (finishes i) c = Unit {0}
  Fair (passes f) c = held c.world ≡ true → held (f c.world) ≡ true

  abbrev pub AllFair : List (Step W) → Contest W → Type 0
  AllFair [] c = Unit {0}
  AllFair (s ∷ steps) c = Fair s c × AllFair steps (step m path s c)

  Tried-IsExclusive :
      (i : ℕ) (c : Contest W) (o : Result Error Bool × W)
      → get_elem? c.phases i ≡ some trying
      → IsExclusive c
      → Tried c.world o
      → IsExclusive (move_to i (after_try o.0) o.1 c)
  Tried-IsExclusive i c o e x (got {w'} free taken) =
      let n = owners-set c.phases i trying owning e in
      record {
        one = elim x.one [
          | inl none_yet ↦ inr (omega (arith, n, none_yet), taken)
          | inr (one, h) ↦ ground (arith, h, free)
        ];
        calm = All-set _ c.phases i (λ q. ground (arith, q)) x.calm;
      }
  Tried-IsExclusive i c o e x (missed {r} {w'} n same) =
      let (light, calm) = after_try_light r n in
      let k = owners-set c.phases i trying (after_try r) e in
      record {
        one = elim x.one [
          | inl none_yet ↦ inl (omega (arith, k, light, none_yet))
          | inr (one, h) ↦ inr (omega (arith, k, light, one), same ∙ h)
        ];
        calm = All-set _ c.phases i calm x.calm;
      }

  tries-IsExclusive :
      (i : ℕ) (c : Contest W) (o : Option Phase)
      → get_elem? c.phases i ≡ o
      → IsExclusive c
      → IsExclusive (act m path (tries i) o c)
  unfolding act
  tries-IsExclusive i c none e x = x
  tries-IsExclusive i c (some trying) e x = Tried-IsExclusive i c _ e x (try-Tried c.world)
  tries-IsExclusive i c (some judging) e x = x
  tries-IsExclusive i c (some owning) e x = x
  tries-IsExclusive i c (some gone) e x = x

  judges-IsExclusive :
      (i : ℕ) (c : Contest W) (o : Option Phase)
      → found_stale m path c.world ≡ false
      → IsExclusive c
      → IsExclusive (act m path (judges i) o c)
  unfolding act
  judges-IsExclusive i c none f x = x
  judges-IsExclusive i c (some trying) f x = rw (act, f) x
  judges-IsExclusive i c (some judging) f x = x
  judges-IsExclusive i c (some owning) f x = x
  judges-IsExclusive i c (some gone) f x = x

  removes-IsExclusive :
      (i : ℕ) (c : Contest W) (o : Option Phase)
      → get_elem? c.phases i ≡ o
      → IsExclusive c
      → IsExclusive (act m path (removes i) o c)
  unfolding act
  removes-IsExclusive i c none e x = x
  removes-IsExclusive i c (some trying) e x = x
  removes-IsExclusive i c (some judging) e x =
      elim (All-get_elem? (λ (p : Phase). p ≢ judging) c.phases i x.calm e refl) [ ]
  removes-IsExclusive i c (some owning) e x = x
  removes-IsExclusive i c (some gone) e x = x

  finishes-IsExclusive :
      (i : ℕ) (c : Contest W) (o : Option Phase)
      → get_elem? c.phases i ≡ o
      → IsExclusive c
      → IsExclusive (act m path (finishes i) o c)
  unfolding act
  finishes-IsExclusive i c none e x = x
  finishes-IsExclusive i c (some trying) e x = x
  finishes-IsExclusive i c (some judging) e x = x
  finishes-IsExclusive i c (some owning) e x =
      let n = owners-set c.phases i owning gone e in
      record {
        one = inl (elim x.one [ inl z ↦ omega (arith, n, z) | inr (z, h) ↦ omega (arith, n, z) ]);
        calm = All-set _ c.phases i (λ q. ground (arith, q)) x.calm;
      }
  finishes-IsExclusive i c (some gone) e x = x

  step-IsExclusive :
      (s : Step W) (c : Contest W) → Fair s c → IsExclusive c → IsExclusive (step m path s c)
  unfolding step
  step-IsExclusive (tries i) c f x = tries-IsExclusive i c _ refl x
  step-IsExclusive (judges i) c f x = judges-IsExclusive i c _ f x
  step-IsExclusive (removes i) c f x = removes-IsExclusive i c _ refl x
  step-IsExclusive (finishes i) c f x = finishes-IsExclusive i c _ refl x
  step-IsExclusive (passes g) c f x = record {
    one = elim x.one [ inl z ↦ inl z | inr (z, h) ↦ inr (z, f h) ];
    calm = x.calm;
  }

  -- However the processes' steps interleave, at most one process owns the lock of a start, and the
  -- lock file is there while one does, as long as no process finds the lock stale and nothing else
  -- removes the file.
  pub run-IsExclusive :
      (steps : List (Step W)) (c : Contest W)
      → AllFair steps c
      → IsExclusive c
      → IsExclusive (run m path steps c)
  unfolding run
  run-IsExclusive [] c f x = x
  run-IsExclusive (s ∷ steps) c f x =
      run-IsExclusive steps (step m path s c) f.1 (step-IsExclusive s c f.0 x)
