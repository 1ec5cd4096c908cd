-- ===== src/Runtime/Waiting.antt =====
-- tcdruntime/file.go, `Wait`: that it ends, and with what.
use testcontainerd.Prelude.{
  ℕ, zero, suc, ◌+◌, ◌*◌, ◌≤◌, ◌<◌, ◌≡◌, refl, true, false, Option, some, Text, ltb, ltb→lt,
  Bool-cases, inl, inr, arith,
}
use testcontainerd.Prelude.Results.{Result, ok, err, Result-cases}
use testcontainerd.Prelude.Int.{millisecond}
use testcontainerd.Errors.{Error}
use testcontainerd.Daemon.Protocol.{RuntimeInfo, Codec}
use testcontainerd.Runtime.Info.{Disk, Clock, read, wait_loop, wait}

-- A sleep takes at least its time.
unfoldable pub IsTicking : {W : Type 0} → Clock W → Type 0
IsTicking {W} clock = (d : ℕ) (w : W) → clock.now w + d ≤ clock.now (clock.sleep d w)

module _ {W : Type 0} (disk : Disk W) (json : Codec RuntimeInfo) (clock : Clock W) where
  -- The answer of a wait: what is read when it ends, or the error of the read that comes after the
  -- deadline. No answer is none of them.
  pub data Waited (path : Text) (deadline : ℕ)
      : Option (Result Error RuntimeInfo × W) → Type 0 where
    found :
        {info : RuntimeInfo} {w : W}
        → read disk json path w ≡ ok info
        → Waited path deadline (some (ok info, w))
    gave_up :
        {e : Error} {w : W}
        → read disk json path w ≡ err e
        → deadline < clock.now w
        → Waited path deadline (some (err e, w))

  loop_found :
      (fuel : ℕ) (path : Text) (deadline : ℕ) (w : W) {info : RuntimeInfo}
      → read disk json path w ≡ ok info
      → wait_loop disk json clock (suc fuel) path deadline w ≡ some (ok info, w)
  unfolding wait_loop
  loop_found fuel path deadline w e = rw (wait_loop, e) refl

  loop_late :
      (fuel : ℕ) (path : Text) (deadline : ℕ) (w : W) {x : Error}
      → read disk json path w ≡ err x
      → ltb deadline (clock.now w) ≡ true
      → wait_loop disk json clock (suc fuel) path deadline w ≡ some (err x, w)
  unfolding wait_loop
  loop_late fuel path deadline w e t = rw (wait_loop, e, t) refl

  loop_on :
      (fuel : ℕ) (path : Text) (deadline : ℕ) (w : W) {x : Error}
      → read disk json path w ≡ err x
      → ltb deadline (clock.now w) ≡ false
      → wait_loop disk json clock (suc fuel) path deadline w
        ≡ wait_loop disk json clock fuel path deadline (clock.sleep (120 * millisecond) w)
  unfolding wait_loop
  loop_on fuel path deadline w e t = rw (wait_loop, e, t) refl

  module _ (ticking : IsTicking clock) where
    loop-Waited :
        (fuel : ℕ) (path : Text) (deadline : ℕ) (w : W)
        → deadline < clock.now w + fuel * (120 * millisecond)
        → Waited path deadline (wait_loop disk json clock (suc fuel) path deadline w)
    unfolding IsTicking
    loop-Waited zero path deadline w h = elim (Result-cases (read disk json path w)) [
      | inr (info, e) ↦ rw (loop_found zero path deadline w e) (found e)
      | inl (x, e) ↦
          let t : ltb deadline (clock.now w) ≡ true = ground arith in
          rw (loop_late zero path deadline w e t) (gave_up e (omega arith))
    ]
    loop-Waited (suc fuel) path deadline w h = elim (Result-cases (read disk json path w)) [
      | inr (info, e) ↦ rw (loop_found (suc fuel) path deadline w e) (found e)
      | inl (x, e) ↦ elim (Bool-cases (ltb deadline (clock.now w))) [
        | inl t ↦ rw (loop_late (suc fuel) path deadline w e t) (gave_up e (ltb→lt _ _ t))
        | inr t ↦
            let s = ticking (120 * millisecond) w in
            rw (loop_on (suc fuel) path deadline w e t)
              (loop-Waited fuel path deadline (clock.sleep (120 * millisecond) w) (omega arith))
      ]
    ]

    -- `Wait` ends, if a sleep takes its time: with what the runtime file says when it ends, or, once
    -- the timeout is over, with the error of the last read. It needs no more rounds than the timeout
    -- has steps of 120 ms, and two.
    pub wait-Waited :
        (fuel : ℕ) (path : Text) (timeout : ℕ) (w : W)
        → timeout < fuel * (120 * millisecond)
        → Waited path (clock.now w + timeout) (wait disk json clock (suc fuel) path timeout w)
    unfolding wait
    wait-Waited fuel path timeout w h =
        loop-Waited fuel path (clock.now w + timeout) w (omega arith)
