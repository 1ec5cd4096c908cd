-- ===== src/LeaseStore/KeepAlive.antt =====
-- How long a lease of daemon/lease_store.go lives: as long as its holder's heartbeats reach the
-- store before a collection finds it expired, whatever the other clients do.
use testcontainerd.Prelude.{
  ℕ, ◌+◌, ◌<◌, ◌≤◌, ◌≡◌, ◌≢◌, refl, sym, ◌∙◌, List, [], ◌∷◌, ◌++◌, some, none, Bool, Text, lit,
  text_eq, text_eq_iff, arith, if◌then◌else◌, inl, inr, Bool-cases, Option-cases,
}
use testcontainerd.Prelude.Int.{ℤ}
use testcontainerd.Prelude.Dict.{
  lookup, insert, lookup-insert_self, lookup-insert_ne, lookup-erase_ne, lookup-erase, lookup-keep,
}
use testcontainerd.LeaseStore.{
  Lease, LeaseStore, acquire, heartbeat, release, is_live, gc, rand_hex,
}
use testcontainerd.LeaseStore.Invariant.{
  Call, acquires, beats, releases, counts, collects, step, run, IsValid, step-IsValid, run-IsValid,
}

-- When the lease runs out after a call, and after a sequence of calls.
abbrev pub deadline : ℕ → Text → ℕ → ℕ × Call → ℕ
deadline ttl id e (t, acquires bytes pid) = e
deadline ttl id e (t, beats j) = if text_eq j id then t + ttl else e
deadline ttl id e (t, releases j) = e
deadline ttl id e (t, counts) = e
deadline ttl id e (t, collects) = e

abbrev pub last_deadline : ℕ → Text → ℕ → List (ℕ × Call) → ℕ
last_deadline ttl id e [] = e
last_deadline ttl id e (c ∷ cs) = last_deadline ttl id (deadline ttl id e c) cs

-- The call does not draw the id again, does not release it, and collects before the deadline only.
abbrev pub Spares : Text → ℕ → ℕ × Call → Type 0
Spares id e (t, acquires bytes pid) = lit "lease-" ++ rand_hex bytes ≢ id
Spares id e (t, beats j) = Unit {0}
Spares id e (t, releases j) = j ≢ id
Spares id e (t, counts) = Unit {0}
Spares id e (t, collects) = t < e

abbrev pub AllSpare : ℕ → Text → ℕ → List (ℕ × Call) → Type 0
AllSpare ttl id e [] = Unit {0}
AllSpare ttl id e (c ∷ cs) = Spares id e c × AllSpare ttl id (deadline ttl id e c) cs

-- The store holds the id with this deadline.
abbrev pub HeldUntil : LeaseStore → Text → ℕ → Type 0
HeldUntil s id e = (l : Lease) × (lookup id s.leases ≡ some l) × (l.expire_at ≡ e)

heartbeat-found :
    (s : LeaseStore) (id : Text) (ttl now : ℕ) (l : Lease)
    → lookup id s.leases ≡ some l
    → heartbeat s id ttl now ≡ (
      record s {
        leases = insert id (record l { last_beat_at = now; expire_at = now + ttl }) s.leases;
      },
      Bool.true,
    )
unfolding heartbeat
heartbeat-found s id ttl now l e = rw (e, heartbeat)

pub acquire-HeldUntil :
    (s : LeaseStore) (bytes : List ℕ) (pid : ℤ) (ttl now : ℕ)
    → HeldUntil (acquire s bytes pid ttl now).0 (acquire s bytes pid ttl now).1.id (now + ttl)
unfolding acquire
acquire-HeldUntil s bytes pid ttl now = (_, lookup-insert_self _ _ s.leases, refl)

pub heartbeat-HeldUntil :
    (s : LeaseStore) (id : Text) (ttl now e : ℕ)
    → HeldUntil s id e
    → ((heartbeat s id ttl now).1 ≡ Bool.true) × HeldUntil (heartbeat s id ttl now).0 id (now + ttl)
heartbeat-HeldUntil s id ttl now e (l, h, x) =
    rw (heartbeat-found s id ttl now l h) (refl, (_, lookup-insert_self id _ s.leases, refl))

lookup-heartbeat_ne :
    (s : LeaseStore) (id j : Text) (ttl now : ℕ)
    → j ≢ id
    → lookup id (heartbeat s j ttl now).0.leases ≡ lookup id s.leases
unfolding heartbeat
lookup-heartbeat_ne s id j ttl now ne = elim (Option-cases (lookup j s.leases)) [
  | inl e ↦ rw (e, heartbeat)
  | inr (l, e) ↦ rw (e, heartbeat) (lookup-insert_ne j id _ s.leases ne)
]

beats-HeldUntil :
    (ttl : ℕ) (s : LeaseStore) (id j : Text) (e t : ℕ)
    → HeldUntil s id e
    → HeldUntil (step ttl s (t, beats j)).0 id (deadline ttl id e (t, beats j))
unfolding step
beats-HeldUntil ttl s id j e t (l, h, x) = elim (Bool-cases (text_eq j id)) [
  | inl same ↦
      rw (same, (text_eq_iff j id).0 same, heartbeat-found s id ttl t l h)
        (record l { last_beat_at = t; expire_at = t + ttl }, lookup-insert_self id _ s.leases, refl)
  | inr other ↦
      rw other (l, lookup-heartbeat_ne s id j ttl t (λ q. ground (arith, text_eq_iff j id)) ∙ h, x)
]

step-HeldUntil :
    (ttl : ℕ) (s : LeaseStore) (id : Text) (e : ℕ) (c : ℕ × Call)
    → IsValid s
    → Spares id e c
    → HeldUntil s id e
    → HeldUntil (step ttl s c).0 id (deadline ttl id e c)
unfolding step acquire release gc
step-HeldUntil ttl s id e (t, acquires bytes pid) v spare (l, h, x) =
    (l, lookup-insert_ne _ id _ s.leases spare ∙ h, x)
step-HeldUntil ttl s id e (t, beats j) v spare held = beats-HeldUntil ttl s id j e t held
step-HeldUntil ttl s id e (t, releases j) v spare (l, h, x) =
    (l, ground (arith, lookup-erase_ne j id s.leases spare), x)
step-HeldUntil ttl s id e (t, counts) v spare held = held
step-HeldUntil ttl s id e (t, collects) v spare (l, h, x) =
    (l, ground (arith, lookup-keep (is_live t) id s.leases v.distinct), x)

-- A lease that its holder renews in time is never lost: after any calls of any clients, none of
-- which releases its id or draws it again, with each collection before the deadline that the last
-- heartbeat set, the store still holds it, until that deadline.
pub run-HeldUntil :
    (ttl : ℕ) (s : LeaseStore) (id : Text) (e : ℕ) (cs : List (ℕ × Call))
    → IsValid s
    → HeldUntil s id e
    → AllSpare ttl id e cs
    → HeldUntil (run ttl s cs) id (last_deadline ttl id e cs)
unfolding run
run-HeldUntil ttl s id e [] v held spare = held
run-HeldUntil ttl s id e (c ∷ cs) v held spare =
    run-HeldUntil ttl (step ttl s c).0 id (deadline ttl id e c) cs (step-IsValid ttl s c v)
      (step-HeldUntil ttl s id e c v spare.0 held) spare.1

-- The calls leave the id alone: nobody renews it or draws it again.
abbrev pub Deserts : Text → ℕ × Call → Type 0
Deserts id (t, acquires bytes pid) = lit "lease-" ++ rand_hex bytes ≢ id
Deserts id (t, beats j) = j ≢ id
Deserts id (t, releases j) = Unit {0}
Deserts id (t, counts) = Unit {0}
Deserts id (t, collects) = Unit {0}

-- If the store has a lease of the id, it is with this deadline.
abbrev pub HeldAtMost : LeaseStore → Text → ℕ → Type 0
HeldAtMost s id e = (l : Lease) → lookup id s.leases ≡ some l → l.expire_at ≡ e

releases-HeldAtMost :
    (s : LeaseStore) (id j : Text) (e : ℕ) → HeldAtMost s id e → HeldAtMost (release s j).0 id e
unfolding release
releases-HeldAtMost s id j e held = elim (Option-cases (lookup j s.leases)) [
  | inl a ↦ rw (a, release) held
  | inr (l, a) ↦ rw (a, release) (λ k q. held k (ground (arith, lookup-erase j id s.leases)))
]

step-HeldAtMost :
    (ttl : ℕ) (s : LeaseStore) (id : Text) (e : ℕ) (c : ℕ × Call)
    → IsValid s
    → Deserts id c
    → HeldAtMost s id e
    → HeldAtMost (step ttl s c).0 id e
unfolding step acquire gc
step-HeldAtMost ttl s id e (t, acquires bytes pid) v d held =
    λ l q. held l (sym (lookup-insert_ne _ id _ s.leases d) ∙ q)
step-HeldAtMost ttl s id e (t, beats j) v d held =
    λ l q. held l (sym (lookup-heartbeat_ne s id j ttl t d) ∙ q)
step-HeldAtMost ttl s id e (t, releases j) v d held = releases-HeldAtMost s id j e held
step-HeldAtMost ttl s id e (t, counts) v d held = held
step-HeldAtMost ttl s id e (t, collects) v d held =
    λ l q. held l (ground (arith, lookup-keep (is_live t) id s.leases v.distinct))

abbrev pub AllDesert : Text → List (ℕ × Call) → Type 0
AllDesert id [] = Unit {0}
AllDesert id (c ∷ cs) = Deserts id c × AllDesert id cs

run-HeldAtMost :
    (ttl : ℕ) (s : LeaseStore) (id : Text) (e : ℕ) (cs : List (ℕ × Call))
    → IsValid s
    → AllDesert id cs
    → HeldAtMost s id e
    → HeldAtMost (run ttl s cs) id e
unfolding run
run-HeldAtMost ttl s id e [] v d held = held
run-HeldAtMost ttl s id e (c ∷ cs) v d held =
    run-HeldAtMost ttl (step ttl s c).0 id e cs (step-IsValid ttl s c v) d.1
      (step-HeldAtMost ttl s id e c v d.0 held)

heartbeat-absent :
    (s : LeaseStore) (id : Text) (ttl now : ℕ)
    → lookup id s.leases ≡ none
    → heartbeat s id ttl now ≡ (s, Bool.false)
unfolding heartbeat
heartbeat-absent s id ttl now e = rw (e, heartbeat)

gc-absent :
    (s : LeaseStore) (id : Text) (e t : ℕ)
    → IsValid s
    → e ≤ t
    → HeldAtMost s id e
    → lookup id (gc s t).leases ≡ none
unfolding gc
gc-absent s id e t v late held = elim (Option-cases (lookup id s.leases)) [
  | inl a ↦ ground (arith, lookup-keep (is_live t) id s.leases v.distinct)
  | inr (l, a) ↦ ground (arith, lookup-keep (is_live t) id s.leases v.distinct, held l a)
]

-- A lease whose holder is gone does not outlive its deadline: after any calls of the other clients
-- a collection at the deadline or later leaves no lease of the id, and a heartbeat of it fails.
pub deserted-heartbeat :
    (ttl : ℕ) (s : LeaseStore) (id : Text) (e : ℕ) (cs : List (ℕ × Call)) (t : ℕ)
    → IsValid s
    → HeldUntil s id e
    → AllDesert id cs
    → e ≤ t
    → let s' = gc (run ttl s cs) t in
      (lookup id s'.leases ≡ none) × ((later : ℕ) → heartbeat s' id ttl later ≡ (s', Bool.false))
deserted-heartbeat ttl s id e cs t v held d late =
    let none_left = gone (run-HeldAtMost ttl s id e cs v d (λ l q. ground (arith, held))) in
    (none_left, λ later. heartbeat-absent _ id ttl later none_left)
  where
    gone : HeldAtMost (run ttl s cs) id e → lookup id (gc (run ttl s cs) t).leases ≡ none
    gone h = gc-absent (run ttl s cs) id e t (run-IsValid ttl s cs v) late h
