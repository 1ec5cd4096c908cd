-- ===== src/LeaseStore/Table.antt =====
-- What daemon/lease_store.go promises: a finite map from ids to leases. The specification is stated
-- on functions, with no list in it, and the store's methods refine it.
use testcontainerd.Prelude.{
  ℕ, ◌+◌, ◌≡◌, refl, inl, inr, List, [], ◌∷◌, ◌++◌, Option, none, some, Text, lit, text_eq,
  text_eq_iff, ap, ◌∙◌, arith, if◌then◌else◌, Option-cases, is_some, ◌||◌, Bool, false, ltb, length,
  Bool-cases,
}
use mathlib.Core.Path.{fun_ext}
use testcontainerd.Prelude.Int.{ℤ}
use testcontainerd.Prelude.Dict.{lookup, Distinct, only, lookup-insert, lookup-erase, lookup-keep}
use testcontainerd.LeaseStore.{
  Lease, LeaseStore, rand_hex, acquire, heartbeat, release, active_count, count_live, is_live, gc,
}
use testcontainerd.LeaseStore.Invariant.{
  Call, acquires, beats, releases, counts, collects, Reply, leased, found, active, done, step, run,
  IsValid, step-IsValid,
}

abbrev pub Table : Type 0
Table = Text → Option Lease

abbrev pub view : LeaseStore → Table
view s id = lookup id s.leases

-- A lease lives until its time is reached, and no longer.
abbrev pub has_time : ℕ → Lease → Bool
has_time now l = ltb now l.expire_at

abbrev pub lives : ℕ → Option Lease → Bool
lives now none = false
lives now (some l) = has_time now l

abbrev pub occurs : List Text → Text → Bool
occurs [] id = false
occurs (i ∷ ids) id = text_eq i id || occurs ids id

-- No id stands twice in the list.
abbrev pub Unrepeated : List Text → Type 0
Unrepeated [] = Unit
Unrepeated (id ∷ ids) = (occurs ids id ≡ false) × Unrepeated ids

-- The number of the ids whose lease lives: some list has exactly these ids, each once, and this length.
pub record IsCount (now : ℕ) (t : Table) (n : ℕ) : Type 0 where
  pub ids : List Text
  pub exact : (id : Text) → occurs ids id ≡ lives now (t id)
  pub unrepeated : Unrepeated ids
  pub counted : length ids ≡ n

abbrev pub new_lease : List ℕ → ℤ → ℕ → ℕ → Lease
new_lease bytes pid ttl now = record {
  id = lit "lease-" ++ rand_hex bytes;
  pid = pid;
  last_beat_at = now;
  expire_at = now + ttl;
}

abbrev pub beaten : ℕ → ℕ → Lease → Lease
beaten ttl now l = record l { last_beat_at = now; expire_at = now + ttl }

abbrev pub renew : (Lease → Lease) → Option Lease → Option Lease
renew f none = none
renew f (some l) = some (f l)

-- The abstract table after a call.
abbrev pub spec_step : ℕ → Table → ℕ × Call → Table
spec_step ttl t (now, acquires bytes pid) j =
    let l = new_lease bytes pid ttl now in if text_eq l.id j then some l else t j
spec_step ttl t (now, beats id) j = if text_eq id j then renew (beaten ttl now) (t id) else t j
spec_step ttl t (now, releases id) j = if text_eq id j then none else t j
spec_step ttl t (now, counts) j = t j
spec_step ttl t (now, collects) j = only (has_time now) (t j)

-- The replies that the abstract table allows.
abbrev pub Replies : ℕ → Table → ℕ × Call → Reply → Type 0
Replies ttl t (now, acquires bytes pid) r = r ≡ leased (new_lease bytes pid ttl now)
Replies ttl t (now, beats id) r = r ≡ found (is_some (t id))
Replies ttl t (now, releases id) r = r ≡ found (is_some (t id))
Replies ttl t (now, counts) r = (n : ℕ) × IsCount now t n × (r ≡ active n)
Replies ttl t (now, collects) r = r ≡ done

beats-refines :
    (ttl now : ℕ) (s : LeaseStore) (id j : Text)
    → (view (step ttl s (now, beats id)).0 j ≡ spec_step ttl (view s) (now, beats id) j)
      × Replies ttl (view s) (now, beats id) (step ttl s (now, beats id)).1
unfolding step heartbeat
beats-refines ttl now s id j = elim (Option-cases (lookup id s.leases)) [
  | inl e ↦ rw (e, heartbeat) (ground (arith, text_eq_iff id j))
  | inr (l, e) ↦
      rw (e, heartbeat)
        (ground (arith, text_eq_iff id j, lookup-insert id j (beaten ttl now l) s.leases))
]

releases-refines :
    (s : LeaseStore) (id j : Text)
    → (view (release s id).0 j ≡ (if text_eq id j then none else view s j))
      × ((release s id).1 ≡ is_some (view s id))
unfolding release
releases-refines s id j = ground (arith, text_eq_iff id j, lookup-erase id j s.leases)

-- The ids of the leases that live.
live_ids : ℕ → List (Text × Lease) → List Text
live_ids now [] = []
live_ids now ((k, l) ∷ m) = let rest = live_ids now m in if has_time now l then k ∷ rest else rest

occurs-live_ids :
    (now : ℕ) (m : List (Text × Lease)) (id : Text)
    → Distinct m
    → occurs (live_ids now m) id ≡ lives now (lookup id m)
unfolding live_ids lookup
occurs-live_ids now [] id d = refl
occurs-live_ids now ((k, l) ∷ m) id d =
    ground (arith, occurs-live_ids now m id d.1, text_eq_iff k id, d.0)

live_ids-Unrepeated : (now : ℕ) (m : List (Text × Lease)) → Distinct m → Unrepeated (live_ids now m)
unfolding live_ids
live_ids-Unrepeated now [] d = tt
live_ids-Unrepeated now ((k, l) ∷ m) d =
    let fresh : occurs (live_ids now m) k ≡ false =
      occurs-live_ids now m k d.1 ∙ ap (lives now) d.0 in
    elim (Bool-cases (has_time now l)) [
      | inl h ↦ rw (live_ids, h) ((fresh, live_ids-Unrepeated now m d.1))
      | inr h ↦ rw (live_ids, h) (live_ids-Unrepeated now m d.1)
    ]

length-live_ids : (now : ℕ) (m : List (Text × Lease)) → length (live_ids now m) ≡ count_live now m
unfolding live_ids count_live
length-live_ids now [] = refl
length-live_ids now ((k, l) ∷ m) = ground (arith, length-live_ids now m)

active_count-IsCount :
    (now : ℕ) (s : LeaseStore) → IsValid s → IsCount now (view s) (active_count s now)
unfolding active_count
active_count-IsCount now s v = record {
  ids = live_ids now s.leases;
  exact = λ id. occurs-live_ids now s.leases id v.distinct;
  unrepeated = live_ids-Unrepeated now s.leases v.distinct;
  counted = length-live_ids now s.leases;
}

-- Every call on a valid store acts on each id as the table says, and answers as the table allows, on
-- each branch: an acquire gives the new lease, a heartbeat and a release say whether the id was there,
-- and a count is the number of the ids whose lease has time left.
pub step-refines :
    (ttl : ℕ) (s : LeaseStore) (c : ℕ × Call) (j : Text)
    → IsValid s
    → (view (step ttl s c).0 j ≡ spec_step ttl (view s) c j)
      × Replies ttl (view s) c (step ttl s c).1
unfolding step acquire gc
step-refines ttl s (now, acquires bytes pid) j v = (lookup-insert _ j _ s.leases, refl)
step-refines ttl s (now, beats id) j v = beats-refines ttl now s id j
step-refines ttl s (now, releases id) j v = let (a, b) = releases-refines s id j in (a, ap found b)
step-refines ttl s (now, counts) j v =
    (refl, (active_count s now, active_count-IsCount now s v, refl))
step-refines ttl s (now, collects) j v = (lookup-keep (is_live now) j s.leases v.distinct, refl)

-- The abstract table after a sequence of calls.
abbrev pub spec_run : ℕ → Table → List (ℕ × Call) → Table
spec_run ttl t [] = t
spec_run ttl t (c ∷ cs) = spec_run ttl (spec_step ttl t c) cs

-- After any sequence of calls at any times the store is the table that the specification computes.
pub run-refines :
    (ttl : ℕ) (s : LeaseStore) (cs : List (ℕ × Call))
    → IsValid s
    → view (run ttl s cs) ≡ spec_run ttl (view s) cs
unfolding run
run-refines ttl s [] v = refl
run-refines ttl s (c ∷ cs) v =
    run-refines ttl (step ttl s c).0 cs (step-IsValid ttl s c v)
    ∙ ap (λ t. spec_run ttl t cs) (fun_ext (λ j. (step-refines ttl s c j v).0))
