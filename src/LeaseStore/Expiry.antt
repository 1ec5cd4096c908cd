-- ===== src/LeaseStore/Expiry.antt =====
-- Expiry in daemon/lease_store.go: what `gc` removes and what `activeCount` counts.
use testcontainerd.Prelude.{
  ℕ, ◌+◌, ◌≤◌, ◌≡◌, refl, List, [], ◌∷◌, ◌++◌, some, none, Text, lit, text_eq_iff, arith, length,
  ltb, if◌then◌else◌, inl, inr, Option, Option-cases, is_some,
}
use testcontainerd.Prelude.Int.{ℤ}
use testcontainerd.Prelude.Dict.{lookup, insert, erase, keep, Distinct}
use testcontainerd.LeaseStore.{
  Lease, LeaseStore, acquire, release, is_live, count_live, active_count, gc, rand_hex,
}
use testcontainerd.LeaseStore.Invariant.{IsValid}

count_live-keep :
    (now : ℕ) (m : List (Text × Lease))
    → (count_live now (keep (is_live now) m) ≡ count_live now m)
      × (length (keep (is_live now) m) ≡ count_live now m)
unfolding count_live keep
count_live-keep now [] = (refl, refl)
count_live-keep now ((k, l) ∷ m) = ground (arith, count_live-keep now m)

-- `gc` removes what `activeCount` at the same time does not count, and nothing else: the count stays
-- and is the number of leases left.
pub active_count-gc :
    (s : LeaseStore) (now : ℕ)
    → (active_count (gc s now) now ≡ active_count s now)
      × (length (gc s now).leases ≡ active_count s now)
unfolding active_count gc
active_count-gc s now = count_live-keep now s.leases

count_live_mono :
    (now later : ℕ) (m : List (Text × Lease)) → now ≤ later → count_live later m ≤ count_live now m
unfolding count_live
count_live_mono now later [] h = omega arith
count_live_mono now later ((k, l) ∷ m) h = ground (arith, count_live_mono now later m)

-- Time alone never makes more leases live.
pub active_count_mono :
    (s : LeaseStore) (now later : ℕ) → now ≤ later → active_count s later ≤ active_count s now
unfolding active_count
active_count_mono s now later h = count_live_mono now later s.leases h

-- How much one lease adds to the count.
abbrev pub live_one : ℕ → Lease → ℕ
live_one now l = if is_live now l then 1 else 0

count_live-insert_fresh :
    (now : ℕ) (id : Text) (l : Lease) (m : List (Text × Lease))
    → lookup id m ≡ none
    → count_live now (insert id l m) ≡ count_live now m + live_one now l
unfolding count_live insert lookup
count_live-insert_fresh now id l [] e = ground arith
count_live-insert_fresh now id l ((k, w) ∷ m) e = ground (arith, count_live-insert_fresh now id l m)

erase_absent : (id : Text) (m : List (Text × Lease)) → lookup id m ≡ none → erase id m ≡ m
unfolding erase lookup
erase_absent id [] e = refl
erase_absent id ((k, w) ∷ m) e = ground (arith, erase_absent id m)

count_live-erase :
    (now : ℕ) (id : Text) {l : Lease} (m : List (Text × Lease))
    → Distinct m
    → lookup id m ≡ some l
    → count_live now m ≡ count_live now (erase id m) + live_one now l
unfolding count_live erase lookup
count_live-erase now id [] d e = cc
count_live-erase now id {l} ((k, w) ∷ m) d e =
    ground (arith, text_eq_iff k id, erase_absent id m, d.0, count_live-erase now id {l = l} m d.1)

-- A lease under a new id counts from the call on until `ttl` later, and leaves the rest of the
-- count alone.
pub active_count-acquire :
    (s : LeaseStore) (bytes : List ℕ) (pid : ℤ) (ttl now at : ℕ)
    → lookup (lit "lease-" ++ rand_hex bytes) s.leases ≡ none
    → active_count (acquire s bytes pid ttl now).0 at
      ≡ active_count s at + (if ltb at (now + ttl) then 1 else 0)
unfolding active_count acquire
active_count-acquire s bytes pid ttl now at e = count_live-insert_fresh at _ _ s.leases e

-- What a lease that may be there adds to the count.
abbrev pub live_of : ℕ → Option Lease → ℕ
live_of now none = 0
live_of now (some l) = live_one now l

-- `release` answers whether the id was there, and takes one off the count if its lease was live,
-- and nothing otherwise.
pub active_count-release :
    (s : LeaseStore) (id : Text) (now : ℕ)
    → IsValid s
    → ((release s id).1 ≡ is_some (lookup id s.leases))
      × (active_count s now ≡ active_count (release s id).0 now + live_of now (lookup id s.leases))
unfolding active_count release
active_count-release s id now v = elim (Option-cases (lookup id s.leases)) [
  | inl e ↦ rw (e, release) (refl, omega arith)
  | inr (l, e) ↦ rw (e, release) (refl, count_live-erase now id s.leases v.distinct e)
]
