-- ===== src/SutManager/Address.antt =====
-- daemon/sut_manager.go, `normalizeProbeAddrs`, with `net.SplitHostPort`, `net.JoinHostPort` and the
-- test that `strconv.Atoi` makes.
use testcontainerd.Prelude.{
  ℕ, ◌+◌, ◌-◌, ◌*◌, ◌^◌, Bool, false, not, ◌&&◌, ◌||◌, List, [], ◌∷◌, ◌++◌, Option, none, some,
  Text, lit, leb, ◌==◌, is_nil, trim_space, has_prefix, if◌then◌else◌,
}

unfoldable pub has_char : ℕ → Text → Bool
has_char c [] = false
has_char c (d ∷ s) = d == c || has_char c s

-- The text before and after the first such character.
unfoldable pub split_first : ℕ → Text → Option (Text × Text)
split_first c [] = none
split_first c (d ∷ s) = if d == c then some ([], s) else elim (split_first c s) [
  | none ↦ none
  | some r ↦ let (before, after) = r in some (d ∷ before, after)
]

-- `hostport` after its "[", up to the port.
unfoldable pub split_bracketed : Text → Option (Text × Text)
unfolding has_char
split_bracketed rest = elim (split_first b']' rest) [
  | none ↦ none
  | some r ↦
      let (host, after) = r in
      elim after [
        | [] ↦ none
        | c ∷ port ↦
            if c == b':'
              && not (has_char b':' port)
              && not (has_char b'[' host)
              && not (has_char b'[' port)
              && not (has_char b']' port)
            then some (host, port)
            else none
      ]
]

-- `net.SplitHostPort`; every error is `none`.
unfoldable pub split_host_port : Text → Option (Text × Text)
unfolding split_bracketed split_first has_char
split_host_port [] = none
split_host_port (c ∷ s) = if c == b'[' then split_bracketed s else elim (split_first b':' (c ∷ s)) [
  | none ↦ none
  | some r ↦
      let (host, port) = r in
      if has_char b':' port || has_char b'[' (c ∷ s) || has_char b']' (c ∷ s)
      then none
      else some (host, port)
]

-- `net.JoinHostPort`.
unfoldable pub join_host_port : Text → Text → Text
unfolding has_char
join_host_port host port =
    if has_char b':' host then lit "[" ++ host ++ lit "]:" ++ port else host ++ lit ":" ++ port

-- The value of a text of decimal digits, after those already read.
unfoldable pub digits : ℕ → Text → Option ℕ
digits n [] = some n
digits n (c ∷ s) =
    let rest = digits (10 * n + (c - b'0')) s in if leb b'0' c && leb c b'9' then rest else none

-- Does `strconv.Atoi` read the text? A sign, digits, and a value of 64 bits.
unfoldable pub is_atoi : Text → Bool
unfolding digits
is_atoi [] = false
is_atoi (c ∷ s) =
    let signed = c == b'-' || c == b'+' in
    let body = if signed then s else c ∷ s in
    let limit = if c == b'-' then 2 ^ 63 else 2 ^ 63 - 1 in
    if is_nil body then false else elim (digits 0 body) [ none ↦ false | some n ↦ leb n limit ]

-- The body of the loop: `none` drops the address.
unfoldable pub normalize_addr : Text → Option Text
unfolding split_host_port is_atoi join_host_port trim_space has_prefix
normalize_addr raw =
    let trimmed = trim_space raw in
    let addr = if has_prefix trimmed (lit ":") then lit "127.0.0.1" ++ trimmed else trimmed in
    if is_nil trimmed then none else elim (split_host_port addr) [
      | none ↦ none
      | some r ↦
          let (host, port) = r in
          let named = if is_nil (trim_space host) then lit "127.0.0.1" else host in
          if is_atoi port then some (join_host_port named port) else none
    ]

unfoldable pub normalize_probe_addrs : List Text → List Text
unfolding normalize_addr
normalize_probe_addrs [] = []
normalize_probe_addrs (raw ∷ addrs) = elim (normalize_addr raw) [
  | none ↦ normalize_probe_addrs addrs
  | some addr ↦ addr ∷ normalize_probe_addrs addrs
]
