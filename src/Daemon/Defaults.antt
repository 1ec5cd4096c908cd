-- ===== src/Daemon/Defaults.antt =====
-- daemon/server.go, `New`: the defaults of the configuration.
use testcontainerd.Prelude.{
  ℕ, zero, suc, ◌/◌, ◌%◌, ◌+◌, ◌≡◌, refl, true, false, [], ◌∷◌, Text, lit, ◌==◌, is_nil, trim_space,
  Bool-cases, inl, inr, if◌then◌else◌,
}
use testcontainerd.Prelude.Int.{ℤ, pos, negsuc, is_pos}
use testcontainerd.Daemon.{Config, with_defaults, format_digits}

format_digits-rest : (fuel n c : ℕ) (s : Text) → is_nil (format_digits fuel n (c ∷ s)) ≡ false
unfolding format_digits
format_digits-rest zero n c s = refl
format_digits-rest (suc fuel) n c s = elim (Bool-cases (n == 0)) [
  | inl e ↦ rw (format_digits, e) refl
  | inr e ↦ rw (format_digits, e) (format_digits-rest fuel (n / 10) (b'0' + n % 10) (c ∷ s))
]

format_digits-is_nil : (fuel n : ℕ) → is_nil (format_digits (suc fuel) n []) ≡ false
unfolding format_digits
format_digits-is_nil fuel n = elim (Bool-cases (n == 0)) [
  | inl e ↦ rw (format_digits, e) refl
  | inr e ↦ rw (format_digits, e) (format_digits-rest fuel (n / 10) (b'0' + n % 10) [])
]

or_text : (t u : Text) → is_nil t ≡ false → is_nil (if is_nil u then t else u) ≡ false
or_text t [] h = h
or_text t (c ∷ u) h = refl

default_not_space : is_nil (trim_space (lit "default")) ≡ false
unfolding trim_space
default_not_space = refl

or_trimmed :
    (t u : Text)
    → is_nil (trim_space t) ≡ false
    → is_nil (trim_space (if is_nil (trim_space u) then t else u)) ≡ false
or_trimmed t u h = elim (Bool-cases (is_nil (trim_space u))) [ inl e ↦ rw (e) h | inr e ↦ rw (e) e ]

or_positive : (d e : ℤ) → is_pos e ≡ true → is_pos (if is_pos d then d else e) ≡ true
or_positive (pos zero) e h = h
or_positive (pos (suc n)) e h = refl
or_positive (negsuc n) e h = h

-- Whatever it is given, the configuration of a new daemon has an address, a token, a project that is
-- not only space, and an idle TTL that is positive.
pub with_defaults_complete :
    {W : Type 0} (temp : Text) (unix_nano : ℕ) (cfg : Config W)
    → (is_nil (with_defaults temp unix_nano cfg).addr ≡ false)
      × ((is_nil (with_defaults temp unix_nano cfg).token ≡ false)
          × ((is_nil (trim_space (with_defaults temp unix_nano cfg).project) ≡ false)
              × (is_pos (with_defaults temp unix_nano cfg).idle_ttl ≡ true)))
unfolding with_defaults
with_defaults_complete temp unix_nano cfg = (
  or_text (lit "127.0.0.1:0") cfg.addr refl,
  (
    or_text (format_digits 20 unix_nano []) cfg.token (format_digits-is_nil 19 unix_nano),
    (or_trimmed (lit "default") cfg.project default_not_space, or_positive cfg.idle_ttl _ refl),
  ),
)
