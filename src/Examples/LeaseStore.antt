-- ===== src/Examples/LeaseStore.antt =====
-- The lease store at work: leases drawn from two different buffers of random bytes.
use testcontainerd.Prelude.{
  ℕ, ◌≡◌, refl, false, List, [], ◌∷◌, none, Text, lit, text_eq, text_ne, arith,
}
use testcontainerd.Prelude.Int.{pos}
use testcontainerd.Prelude.Dict.{lookup, insert, keep}
use testcontainerd.LeaseStore.{
  Lease, LeaseStore, new_lease_store, lease_ttl, rand_hex, acquire, heartbeat, gc, active_count,
}
use testcontainerd.LeaseStore.Invariant.{
  Call, acquires, beats, releases, counts, collects, step, run, IsValid, run-new-IsValid,
}
use testcontainerd.LeaseStore.Table.{view, Replies, step-refines}
use testcontainerd.LeaseStore.KeepAlive.{
  HeldUntil, last_deadline, run-HeldUntil, deserted-heartbeat,
}

abbrev bytes : List ℕ
bytes = 0 ∷ 1 ∷ 17 ∷ 255 ∷ 16 ∷ 160 ∷ 7 ∷ 9 ∷ []

abbrev other_bytes : List ℕ
other_bytes = 1 ∷ 1 ∷ 17 ∷ 255 ∷ 16 ∷ 160 ∷ 7 ∷ 9 ∷ []

abbrev first_id : Text
first_id = lit "lease-000111ff10a00709"

abbrev first : Lease
first = record { id = first_id; pid = pos 41; last_beat_at = 5; expire_at = 2000000005 }

abbrev one_lease : LeaseStore
one_lease = record { leases = (first_id, first) ∷ [] }

first_drawn : acquire new_lease_store bytes (pos 41) lease_ttl 5 ≡ (one_lease, first)
unfolding acquire insert
first_drawn = refl

beat_then_collect :
    active_count (gc (heartbeat one_lease first_id lease_ttl 1000000000).0 2500000000) 2500000000
    ≡ 1
unfolding heartbeat gc active_count lookup insert keep text_eq
beat_then_collect = refl

collected : active_count (gc one_lease 2000000005) 0 ≡ 0
unfolding gc active_count keep
collected = refl

abbrev day : List (ℕ × Call)
day =
    (5, acquires bytes (pos 41))
    ∷ (6, acquires other_bytes (pos 42))
    ∷ (1000000000, beats first_id)
    ∷ (2000000006, collects)
    ∷ (2000000007, counts)
    ∷ []

one_lease-IsValid : IsValid one_lease
unfolding lookup
one_lease-IsValid = record { distinct = (refl, tt); keyed = (refl, tt) }

run-new-IsValid_example : IsValid (run lease_ttl new_lease_store day)
run-new-IsValid_example = run-new-IsValid lease_ttl day

-- What is counted is the one lease that lives.
step-refines_example :
    (view (step lease_ttl one_lease (7, counts)).0 first_id ≡ view one_lease first_id)
    × Replies lease_ttl (view one_lease) (7, counts) (step lease_ttl one_lease (7, counts)).1
step-refines_example = step-refines lease_ttl one_lease (7, counts) first_id one_lease-IsValid

-- The first lease through heartbeats of its own and a second client's whole life.
abbrev busy_day : List (ℕ × Call)
busy_day =
    (1000000000, beats first_id)
    ∷ (1000000001, acquires other_bytes (pos 42))
    ∷ (2000000000, collects)
    ∷ (2000000000, beats first_id)
    ∷ (3000000000, releases (lit "lease-010111ff10a00709"))
    ∷ (3900000000, collects)
    ∷ []

one_lease-HeldUntil : HeldUntil one_lease first_id 2000000005
unfolding lookup text_eq
one_lease-HeldUntil = (first, refl, refl)

run-HeldUntil_example :
    HeldUntil
      (run lease_ttl one_lease busy_day)
      first_id
      (last_deadline lease_ttl first_id 2000000005 busy_day)
unfolding text_eq rand_hex
run-HeldUntil_example =
    run-HeldUntil lease_ttl one_lease first_id 2000000005 busy_day one_lease-IsValid
      one_lease-HeldUntil
      (
        tt,
        (
          text_ne _ first_id refl,
          (omega arith, (tt, (text_ne _ first_id refl, (omega arith, tt)))),
        ),
      )

deserted-heartbeat_example :
    let s' = gc (run lease_ttl one_lease ((9, acquires other_bytes (pos 42)) ∷ [])) 2000000005 in
    (lookup first_id s'.leases ≡ none)
    × ((later : ℕ) → heartbeat s' first_id lease_ttl later ≡ (s', false))
unfolding text_eq rand_hex
deserted-heartbeat_example =
    deserted-heartbeat lease_ttl one_lease first_id 2000000005
      ((9, acquires other_bytes (pos 42)) ∷ []) 2000000005 one_lease-IsValid one_lease-HeldUntil
      (text_ne _ first_id refl, tt) (omega arith)
