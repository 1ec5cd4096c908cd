-- ===== src/SutManager/Readiness.antt =====
-- daemon/sut_manager.go, `waitSUTReady`: when it ends, and what its success means.
use testcontainerd.Prelude.{
  ℕ, zero, suc, ◌+◌, ◌*◌, ◌≤◌, ◌<◌, ◌≡◌, ◌≢◌, refl, sym, ◌∙◌, ◌↔◌, inl, inr, Bool, true, false,
  List, [], ◌∷◌, Option, none, some, Text, ltb, is_nil, is_some, Option-cases, arith,
}
use testcontainerd.Prelude.Int.{ℤ, pos, negsuc, millisecond}
use testcontainerd.LeaseStore.{second}
use testcontainerd.Errors.{Error}
use testcontainerd.SutManager.Ready.{
  Poll, Round, Observed, failed_addrs, judge, probe, probe_loop, wait_sut_ready,
}

-- Every address of the list answers.
pub AllAnswer : (Text → Bool) → List Text → Type 0
AllAnswer answers [] = Unit
AllAnswer answers (a ∷ addrs) = (answers a ≡ true) × AllAnswer answers addrs

pub failed_addrs-AllAnswer :
    (answers : Text → Bool) (addrs : List Text)
    → (is_nil (failed_addrs answers addrs) ≡ true) ↔ AllAnswer answers addrs
unfolding failed_addrs AllAnswer
failed_addrs-AllAnswer answers [] = ((λ h. tt), (λ h. refl))
failed_addrs-AllAnswer answers (a ∷ addrs) = ground (arith, failed_addrs-AllAnswer answers addrs)

-- A run of the loop from round k on that ends with every address answering: the rounds before found
-- one that does not, no exit and no end of the context, and were in time.
pub data Reaches (addrs : List Text) (deadline : ℕ) (rounds : ℕ → Round) : ℕ → Type 0 where
  ready_now : {k : ℕ} → AllAnswer (rounds k).answers addrs → Reaches addrs deadline rounds k
  not_yet :
      {k : ℕ}
      → is_nil (failed_addrs (rounds k).answers addrs) ≡ false
      → (rounds k).poll ≡ Poll.quiet
      → (rounds k).now ≤ deadline
      → Reaches addrs deadline rounds (suc k)
      → Reaches addrs deadline rounds k

judge-none :
    (p : Poll) (failed : List Text) (late : Bool)
    → judge p failed late ≡ none
    → (p ≡ Poll.quiet) × (late ≡ false)
unfolding judge
judge-none (Poll.ctx_done e) failed late h = ground arith
judge-none (Poll.exited none) failed late h = ground arith
judge-none (Poll.exited (some e)) failed late h = ground arith
judge-none Poll.quiet failed late h = ground arith

judge-ready : (p : Poll) (failed : List Text) (late : Bool) → judge p failed late ≢ some none
unfolding judge
judge-ready (Poll.ctx_done e) failed late h = ground arith
judge-ready (Poll.exited none) failed late h = ground arith
judge-ready (Poll.exited (some e)) failed late h = ground arith
judge-ready Poll.quiet failed late h = ground arith

judge-quiet : (failed : List Text) → judge Poll.quiet failed false ≡ none
unfolding judge
judge-quiet failed = refl

ltb-le : (a b : ℕ) → (ltb a b ≡ false) ↔ (b ≤ a)
ltb-le a b = ground arith

-- One round: what it means to be ready, and to go on.
probe-ready :
    (addrs : List Text) (deadline : ℕ) (r : Round)
    → (probe addrs deadline r ≡ some none) ↔ AllAnswer r.answers addrs
unfolding probe
probe-ready addrs deadline r = ground (
  arith,
  failed_addrs-AllAnswer r.answers addrs,
  judge-ready r.poll (failed_addrs r.answers addrs) (ltb deadline r.now),
)

probe-on :
    (addrs : List Text) (deadline : ℕ) (r : Round)
    → probe addrs deadline r ≡ none
    → (is_nil (failed_addrs r.answers addrs) ≡ false) × ((r.poll ≡ Poll.quiet) × (r.now ≤ deadline))
unfolding probe
probe-on addrs deadline r h =
    ground (arith, judge-none r.poll (failed_addrs r.answers addrs) (ltb deadline r.now))

on-probe :
    (addrs : List Text) (deadline : ℕ) (r : Round)
    → is_nil (failed_addrs r.answers addrs) ≡ false
    → r.poll ≡ Poll.quiet
    → r.now ≤ deadline
    → probe addrs deadline r ≡ none
unfolding probe
on-probe addrs deadline r h q t =
    rw (h, q, (ltb-le deadline r.now).1 t) (judge-quiet (failed_addrs r.answers addrs))

loop_on :
    (fuel : ℕ) (addrs : List Text) (deadline : ℕ) (rounds : ℕ → Round) (k : ℕ)
    → probe addrs deadline (rounds k) ≡ none
    → probe_loop (suc fuel) addrs deadline rounds k ≡ probe_loop fuel addrs deadline rounds (suc k)
unfolding probe_loop
loop_on fuel addrs deadline rounds k e = rw (probe_loop, e) refl

loop_end :
    (fuel : ℕ) (addrs : List Text) (deadline : ℕ) (rounds : ℕ → Round) (k : ℕ) {r : Option Error}
    → probe addrs deadline (rounds k) ≡ some r
    → probe_loop (suc fuel) addrs deadline rounds k ≡ some r
unfolding probe_loop
loop_end fuel addrs deadline rounds k e = rw (probe_loop, e) refl

loop_dry :
    (addrs : List Text) (deadline : ℕ) (rounds : ℕ → Round) (k : ℕ)
    → probe_loop 0 addrs deadline rounds k ≢ some none
unfolding probe_loop
loop_dry addrs deadline rounds k h = ground arith

loop-Reaches :
    (fuel : ℕ) (addrs : List Text) (deadline : ℕ) (rounds : ℕ → Round) (k : ℕ)
    → probe_loop fuel addrs deadline rounds k ≡ some none
    → Reaches addrs deadline rounds k
loop-Reaches zero addrs deadline rounds k h = elim (loop_dry addrs deadline rounds k h) [ ]
loop-Reaches (suc fuel) addrs deadline rounds k h =
    elim (Option-cases (probe addrs deadline (rounds k))) [
      | inl e ↦
          let on = probe-on addrs deadline (rounds k) e in
          let h' = sym (loop_on fuel addrs deadline rounds k e) ∙ h in
          not_yet on.0 on.1.0 on.1.1 (loop-Reaches fuel addrs deadline rounds (suc k) h')
      | inr (a, e) ↦
          let h' = sym (loop_end fuel addrs deadline rounds k e) ∙ h in
          ready_now ((probe-ready addrs deadline (rounds k)).0 (e ∙ h'))
    ]

Reaches-loop :
    {addrs : List Text} {deadline : ℕ} {rounds : ℕ → Round} {k : ℕ}
    → Reaches addrs deadline rounds k
    → (fuel : ℕ) × (probe_loop fuel addrs deadline rounds k ≡ some none)
Reaches-loop {addrs} {deadline} {rounds} {k} (ready_now h) =
    (1, loop_end 0 addrs deadline rounds k ((probe-ready addrs deadline (rounds k)).1 h))
Reaches-loop {addrs} {deadline} {rounds} {k} (not_yet h q t r) =
    let (fuel, e) = Reaches-loop r in
    (suc fuel, loop_on fuel addrs deadline rounds k (on-probe addrs deadline (rounds k) h q t) ∙ e)

-- The loop succeeds, given fuel, exactly when it reaches a round in which every address answers,
-- and no round before has an exit, a done context or a clock past the deadline.
pub probe_loop-Reaches :
    (addrs : List Text) (deadline : ℕ) (rounds : ℕ → Round)
    → ((fuel : ℕ) × (probe_loop fuel addrs deadline rounds 0 ≡ some none))
      ↔ Reaches addrs deadline rounds 0
probe_loop-Reaches addrs deadline rounds =
    ((λ r. loop-Reaches r.0 addrs deadline rounds 0 r.1), (λ r. Reaches-loop r))

-- Each round sleeps 150 ms.
unfoldable pub IsTimed : (ℕ → Round) → Type 0
IsTimed rounds = (k : ℕ) → (rounds k).now + 150 * millisecond ≤ (rounds (suc k)).now

past_deadline :
    (addrs : List Text) (deadline : ℕ) (r : Round)
    → deadline < r.now
    → is_some (probe addrs deadline r) ≡ true
past_deadline addrs deadline r h = elim (Option-cases (probe addrs deadline r)) [
  | inl e ↦ ground (arith, probe-on addrs deadline r e)
  | inr (a, e) ↦ rw (e) refl
]

loop_ends :
    (fuel : ℕ) (addrs : List Text) (deadline : ℕ) (rounds : ℕ → Round) (k : ℕ)
    → IsTimed rounds
    → deadline < (rounds k).now + fuel * (150 * millisecond)
    → is_some (probe_loop (suc fuel) addrs deadline rounds k) ≡ true
unfolding IsTimed
loop_ends zero addrs deadline rounds k timed h =
    elim (Option-cases (probe addrs deadline (rounds k))) [
      | inl e ↦ ground (arith, probe-on addrs deadline (rounds k) e)
      | inr (a, e) ↦ rw (loop_end zero addrs deadline rounds k e) refl
    ]
loop_ends (suc fuel) addrs deadline rounds k timed h =
    elim (Option-cases (probe addrs deadline (rounds k))) [
      | inl e ↦
          rw (loop_on (suc fuel) addrs deadline rounds k e)
            (loop_ends fuel addrs deadline rounds (suc k) timed (let t = timed k in omega arith))
      | inr (a, e) ↦ rw (loop_end (suc fuel) addrs deadline rounds k e) refl
    ]

-- What `waitSUTReady` waits for at most: the plan's timeout, or 8 s.
abbrev pub wait_limit : ℤ → ℕ
wait_limit (pos zero) = 8 * second
wait_limit (pos (suc n)) = suc n
wait_limit (negsuc n) = 8 * second

-- If each round sleeps 150 ms, `waitSUTReady` ends: it needs no more rounds than its timeout has
-- steps of 150 ms, and two.
pub wait_sut_ready_ends :
    (fuel : ℕ) (seen : Observed) (addrs : List Text) (timeout : ℤ)
    → IsTimed seen.rounds
    → seen.begun ≤ (seen.rounds 0).now
    → wait_limit timeout < fuel * (150 * millisecond)
    → is_some (wait_sut_ready (suc fuel) seen addrs timeout) ≡ true
unfolding wait_sut_ready
wait_sut_ready_ends fuel seen [] timeout timed b h = refl
wait_sut_ready_ends fuel seen (a ∷ addrs) (pos zero) timed b h =
    loop_ends fuel (a ∷ addrs) (seen.begun + 8 * second) seen.rounds 0 timed (omega arith)
wait_sut_ready_ends fuel seen (a ∷ addrs) (pos (suc n)) timed b h =
    loop_ends fuel (a ∷ addrs) (seen.begun + suc n) seen.rounds 0 timed (omega arith)
wait_sut_ready_ends fuel seen (a ∷ addrs) (negsuc n) timed b h =
    loop_ends fuel (a ∷ addrs) (seen.begun + 8 * second) seen.rounds 0 timed (omega arith)
