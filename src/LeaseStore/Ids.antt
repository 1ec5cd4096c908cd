-- ===== src/LeaseStore/Ids.antt =====
-- Lease ids of daemon/lease_store.go: "lease-" and the random bytes in hexadecimal.
use testcontainerd.Prelude.{
  ℕ, ◌/◌, ◌%◌, ◌<◌, ◌≡◌, ◌≢◌, refl, sym, ◌∙◌, List, [], ◌∷◌, ◌++◌, All, some, Text, lit, arith,
}
use testcontainerd.Prelude.Int.{ℤ}
use testcontainerd.Prelude.Dict.{lookup, lookup-insert_self, lookup-insert_ne}
use testcontainerd.LeaseStore.{LeaseStore, hex_digit, encode_to_string, rand_hex, acquire}

abbrev pub IsBytes : List ℕ → Type 0
IsBytes = All (λ b. b < 256)

hex_digit-injective : (a b : ℕ) → a < 16 → b < 16 → hex_digit a ≡ hex_digit b → a ≡ b
unfolding hex_digit
hex_digit-injective a b p q e = ground arith

encode_to_string-injective :
    (xs ys : List ℕ) → IsBytes xs → IsBytes ys → encode_to_string xs ≡ encode_to_string ys → xs ≡ ys
unfolding encode_to_string
encode_to_string-injective [] [] p q e = refl
encode_to_string-injective [] (y ∷ ys) p q e = cc
encode_to_string-injective (x ∷ xs) [] p q e = cc
encode_to_string-injective (x ∷ xs) (y ∷ ys) p q e = ground (
  arith,
  hex_digit-injective (x / 16) (y / 16),
  hex_digit-injective (x % 16) (y % 16),
  encode_to_string-injective xs ys p.1 q.1,
)

abbrev lease_id : List ℕ → Text
lease_id bytes = lit "lease-" ++ rand_hex bytes

lease_id-injective :
    (xs ys : List ℕ) → IsBytes xs → IsBytes ys → lease_id xs ≡ lease_id ys → xs ≡ ys
unfolding rand_hex
lease_id-injective xs ys p q e = encode_to_string-injective xs ys p q (ground arith)

-- Two calls that draw different bytes give different ids, and the second leaves the first's lease
-- in the store as it was.
pub acquire-acquire :
    (s : LeaseStore) (xs ys : List ℕ) (p q : ℤ) (ttl t u : ℕ)
    → IsBytes xs
    → IsBytes ys
    → xs ≢ ys
    → let (s', l) = acquire s xs p ttl t in
      let (s'', l') = acquire s' ys q ttl u in
      (l.id ≢ l'.id) × (lookup l.id s''.leases ≡ some l) × (lookup l'.id s''.leases ≡ some l')
unfolding acquire
acquire-acquire s xs ys p q ttl t u hx hy ne = (
  λ e. ids e,
  lookup-insert_ne _ _ _ _ (λ e. ids (sym e)) ∙ lookup-insert_self _ _ s.leases,
  lookup-insert_self _ _ _,
)
  where
    ids : lease_id xs ≢ lease_id ys
    ids e = ne (lease_id-injective xs ys hx hy e)
