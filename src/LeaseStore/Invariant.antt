-- ===== src/LeaseStore/Invariant.antt =====
-- The methods of daemon/lease_store.go as calls on one store, and the well-formedness of the store.
use testcontainerd.Prelude.{
  ℕ, ◌≡◌, refl, Bool, List, [], ◌∷◌, All, inl, inr, some, Text, Option-cases, text_eq_iff, arith,
}
use testcontainerd.Prelude.Int.{ℤ}
use testcontainerd.Prelude.Dict.{
  lookup, insert, erase, keep, Distinct, insert-Distinct, erase-Distinct, keep-Distinct,
}
use testcontainerd.LeaseStore.{
  Lease, LeaseStore, new_lease_store, acquire, heartbeat, release, active_count, is_live, gc,
}

-- A call and what it is given: the random bytes and the pid, a lease id, or nothing.
pub data Call : Type 0 where
  acquires : List ℕ → ℤ → Call
  beats : Text → Call
  releases : Text → Call
  counts collects : Call

pub data Reply : Type 0 where
  leased : Lease → Reply
  found : Bool → Reply
  active : ℕ → Reply
  done : Reply

-- A call at a time, with the time to live that `acquire` and `heartbeat` are given.
unfoldable pub step : ℕ → LeaseStore → ℕ × Call → LeaseStore × Reply
step ttl s (now, acquires bytes pid) = let (s', l) = acquire s bytes pid ttl now in (s', leased l)
step ttl s (now, beats id) = let (s', ok) = heartbeat s id ttl now in (s', found ok)
step ttl s (now, releases id) = let (s', ok) = release s id in (s', found ok)
step ttl s (now, counts) = (s, active (active_count s now))
step ttl s (now, collects) = (gc s now, done)

unfoldable pub run : ℕ → LeaseStore → List (ℕ × Call) → LeaseStore
unfolding step
run ttl s [] = s
run ttl s (c ∷ cs) = run ttl (step ttl s c).0 cs

-- Each lease stands under its own id, and no id stands twice.
abbrev pub IsKeyed : List (Text × Lease) → Type 0
IsKeyed = All (λ e. e.1.id ≡ e.0)

pub record IsValid (s : LeaseStore) : Type 0 where
  pub distinct : Distinct s.leases
  pub keyed : IsKeyed s.leases

lookup-IsKeyed :
    (id : Text) (m : List (Text × Lease)) {l : Lease} → IsKeyed m → lookup id m ≡ some l → l.id ≡ id
unfolding lookup
lookup-IsKeyed id [] k e = cc
lookup-IsKeyed id ((j, w) ∷ m) {l} k e =
    ground (arith, text_eq_iff j id, lookup-IsKeyed id m {l = l} k.1)

insert-IsKeyed :
    (id : Text) (l : Lease) (m : List (Text × Lease))
    → l.id ≡ id
    → IsKeyed m
    → IsKeyed (insert id l m)
unfolding insert
insert-IsKeyed id l [] e k = (e, tt)
insert-IsKeyed id l ((j, w) ∷ m) e k = ground (arith, insert-IsKeyed id l m e k.1)

erase-IsKeyed : (id : Text) (m : List (Text × Lease)) → IsKeyed m → IsKeyed (erase id m)
unfolding erase
erase-IsKeyed id [] k = tt
erase-IsKeyed id ((j, w) ∷ m) k = ground (arith, erase-IsKeyed id m k.1)

keep-IsKeyed : (p : Lease → Bool) (m : List (Text × Lease)) → IsKeyed m → IsKeyed (keep p m)
unfolding keep
keep-IsKeyed p [] k = tt
keep-IsKeyed p ((j, w) ∷ m) k = ground (arith, keep-IsKeyed p m k.1)

acquire-IsValid :
    (s : LeaseStore) (bytes : List ℕ) (pid : ℤ) (ttl now : ℕ)
    → IsValid s
    → IsValid (acquire s bytes pid ttl now).0
unfolding acquire
acquire-IsValid s bytes pid ttl now v = record {
  distinct = insert-Distinct _ _ s.leases v.distinct;
  keyed = insert-IsKeyed _ _ s.leases refl v.keyed;
}

heartbeat-IsValid :
    (s : LeaseStore) (id : Text) (ttl now : ℕ) → IsValid s → IsValid (heartbeat s id ttl now).0
unfolding heartbeat
heartbeat-IsValid s id ttl now v = elim (Option-cases (lookup id s.leases)) [
  | inl e ↦ rw (e, heartbeat) v
  | inr (l, e) ↦
      rw (e, heartbeat)
        (record {
          distinct = insert-Distinct id _ s.leases v.distinct;
          keyed = insert-IsKeyed id _ s.leases (lookup-IsKeyed id s.leases v.keyed e) v.keyed;
        })
]

release-IsValid : (s : LeaseStore) (id : Text) → IsValid s → IsValid (release s id).0
unfolding release
release-IsValid s id v =
    ground (arith, erase-Distinct id s.leases v.distinct, erase-IsKeyed id s.leases v.keyed)

gc-IsValid : (s : LeaseStore) (now : ℕ) → IsValid s → IsValid (gc s now)
unfolding gc
gc-IsValid s now v = record {
  distinct = keep-Distinct (is_live now) s.leases v.distinct;
  keyed = keep-IsKeyed (is_live now) s.leases v.keyed;
}

pub step-IsValid : (ttl : ℕ) (s : LeaseStore) (c : ℕ × Call) → IsValid s → IsValid (step ttl s c).0
unfolding step
step-IsValid ttl s (now, acquires bytes pid) v = acquire-IsValid s bytes pid ttl now v
step-IsValid ttl s (now, beats id) v = heartbeat-IsValid s id ttl now v
step-IsValid ttl s (now, releases id) v = release-IsValid s id v
step-IsValid ttl s (now, counts) v = v
step-IsValid ttl s (now, collects) v = gc-IsValid s now v

pub run-IsValid :
    (ttl : ℕ) (s : LeaseStore) (cs : List (ℕ × Call)) → IsValid s → IsValid (run ttl s cs)
unfolding run
run-IsValid ttl s [] v = v
run-IsValid ttl s (c ∷ cs) v = run-IsValid ttl (step ttl s c).0 cs (step-IsValid ttl s c v)

-- After any calls at any times a new store holds each lease under its own id, and no id twice.
pub run-new-IsValid : (ttl : ℕ) (cs : List (ℕ × Call)) → IsValid (run ttl new_lease_store cs)
run-new-IsValid ttl cs = run-IsValid ttl new_lease_store cs (record { distinct = tt; keyed = tt })
