-- ===== src/LeaseStore.antt =====
-- daemon/lease_store.go and constant/lease.go: the table of leases. Times are nanoseconds since the
-- zero `time.Time`; the clock's reading and the random bytes are arguments of the call that reads
-- them. Each method runs under the store's mutex, and is one function here.
pub mod Invariant
pub mod Table
pub mod Ids
pub mod Expiry
pub mod KeepAlive
use testcontainerd.Prelude.{
  ℕ, suc, ◌+◌, ◌-◌, ◌*◌, ◌/◌, ◌%◌, Bool, true, false, List, [], ◌∷◌, ◌++◌, none, some, Text, lit,
  ltb, if◌then◌else◌,
}
use testcontainerd.Prelude.Int.{ℤ}
use testcontainerd.Prelude.Dict.{lookup, insert, erase, keep}

abbrev pub second : ℕ
second = 1000000000

abbrev pub lease_ttl : ℕ
lease_ttl = 2 * second

abbrev pub heartbeat_interval : ℕ
heartbeat_interval = lease_ttl / 2

pub record Lease : Type 0 where
  pub id : Text
  pub pid : ℤ
  pub last_beat_at : ℕ
  pub expire_at : ℕ

pub record LeaseStore : Type 0 where
  pub leases : List (Text × Lease)

abbrev pub new_lease_store : LeaseStore
new_lease_store = record { leases = [] }

unfoldable pub hex_digit : ℕ → ℕ
hex_digit n = if ltb n 10 then b'0' + n else b'a' + (n - 10)

-- `hex.EncodeToString`, of a list of bytes.
unfoldable pub encode_to_string : List ℕ → Text
encode_to_string [] = []
encode_to_string (b ∷ bs) = hex_digit (b / 16) ∷ hex_digit (b % 16) ∷ encode_to_string bs

-- `randHex(n)`, where `rand.Read` has filled the buffer with these n bytes.
unfoldable pub rand_hex : List ℕ → Text
unfolding encode_to_string hex_digit
rand_hex bytes = encode_to_string bytes

unfoldable pub acquire : LeaseStore → List ℕ → ℤ → ℕ → ℕ → LeaseStore × Lease
unfolding rand_hex
acquire s bytes pid ttl now = (record s { leases = insert l.id l s.leases }, l)
  where
    l : Lease
    l = record {
      id = lit "lease-" ++ rand_hex bytes;
      pid = pid;
      last_beat_at = now;
      expire_at = now + ttl;
    }

unfoldable pub heartbeat : LeaseStore → Text → ℕ → ℕ → LeaseStore × Bool
heartbeat s id ttl now = elim (lookup id s.leases) [
  | none ↦ (s, false)
  | some l ↦ (
    record s {
      leases = insert id (record l { last_beat_at = now; expire_at = now + ttl }) s.leases;
    },
    true,
  )
]

unfoldable pub release : LeaseStore → Text → LeaseStore × Bool
release s id = elim (lookup id s.leases) [
  | none ↦ (s, false)
  | some l ↦ (record s { leases = erase id s.leases }, true)
]

-- `l.ExpireAt.After(now)`.
abbrev pub is_live : ℕ → Lease → Bool
is_live now l = ltb now l.expire_at

unfoldable pub count_live : ℕ → List (Text × Lease) → ℕ
count_live now [] = 0
count_live now ((k, l) ∷ m) =
    let rest = count_live now m in if is_live now l then suc rest else rest

unfoldable pub active_count : LeaseStore → ℕ → ℕ
unfolding count_live
active_count s now = count_live now s.leases

unfoldable pub gc : LeaseStore → ℕ → LeaseStore
gc s now = record s { leases = keep (is_live now) s.leases }
