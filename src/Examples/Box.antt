-- ===== src/Examples/Box.antt =====
-- A machine: a clock, a table of files, and an encoding of the runtime file.
use testcontainerd.Prelude.{
  false, ℕ, zero, suc, ◌+◌, ◌≡◌, ◌≢◌, refl, sym, ◌∙◌, ap, List, [], ◌∷◌, ◌++◌, Option, none, some,
  Text, lit, length, arith, inl, inr, Option-cases,
}
use testcontainerd.Prelude.Int.{ℤ, pos, negsuc}
use testcontainerd.Prelude.Dict.{
  lookup, insert, erase, lookup-insert_self, lookup-insert_ne, lookup-erase_self,
}
use testcontainerd.Prelude.Results.{Result, ok, err}
use testcontainerd.Client.Runner.{CopyApi}
use testcontainerd.Errors.{Error, external}
use testcontainerd.Daemon.Protocol.{RuntimeInfo, Codec, IsFaithful}
use testcontainerd.Runtime.Info.{Disk, Clock}
use testcontainerd.Runtime.Discovery.{IsDisk}
use testcontainerd.Runtime.Waiting.{IsTicking}

pub record Box : Type 0 where
  pub time : ℕ
  pub table : List (Text × Text)

abbrev pub no_file : Error
no_file = external (lit "file does not exist")

abbrev pub content : Option Text → Result Error Text
content none = err no_file
content (some b) = ok b

abbrev pub read_table : Text → Box → Result Error Text
read_table p w = content (lookup p w.table)

unfoldable pub write_table : Text → Text → Box → Option Error × Box
unfolding insert
write_table p b w = (none, record w { table = insert p b w.table })

unfoldable pub rename_table : Text → Text → Box → Option Error × Box
unfolding lookup insert erase
rename_table p q w = elim (lookup p w.table) [
  | none ↦ (some no_file, w)
  | some b ↦ (none, record w { table = insert q b (erase p w.table) })
]

unfoldable pub remove_table : Text → Box → Option Error × Box
unfolding lookup erase
remove_table p w = elim (lookup p w.table) [
  | none ↦ (some no_file, w)
  | some b ↦ (none, record w { table = erase p w.table })
]

abbrev pub box_disk : Disk Box
box_disk = record {
  files = record {
    temp = lit "/tmp";
    mkdir_all = λ d w. (none, w);
    open_append = λ p w. (ok 7, w);
  };
  read_file = read_table;
  write_file = write_table;
  rename = rename_table;
  remove_file = remove_table;
}

abbrev pub box_clock : Clock Box
box_clock = record { now = λ w. w.time; sleep = λ d w. record w { time = w.time + d } }

pub box-IsTicking : IsTicking box_clock
unfolding IsTicking
box-IsTicking d w = omega arith

rename-reads :
    (p q b : Text) (w : Box) → read_table p w ≡ ok b → read_table q (rename_table p q w).1 ≡ ok b
unfolding rename_table
rename-reads p q b w r = elim (Option-cases (lookup p w.table)) [
  | inl e ↦ ground (arith, e)
  | inr (c, e) ↦ rw (e, rename_table, lookup-insert_self q c (erase p w.table)) (rw (e) at r)
]

write_keeps :
    (p q b c : Text) (w : Box)
    → p ≢ q
    → read_table q w ≡ ok c
    → read_table q (write_table p b w).1 ≡ ok c
unfolding write_table
write_keeps p q b c w ne r = rw (lookup-insert_ne p q b w.table ne) r

rename_keeps :
    (p q c : Text) (w : Box) (x : Error)
    → (rename_table p q w).0 ≡ some x
    → read_table q w ≡ ok c
    → read_table q (rename_table p q w).1 ≡ ok c
unfolding rename_table
rename_keeps p q c w x h r = elim (Option-cases (lookup p w.table)) [
  | inl e ↦ rw (e, rename_table) r
  | inr (b, e) ↦ ground (arith, e)
]

remove_forgets :
    (p c : Text) (w : Box) → (remove_table p w).0 ≡ none → read_table p (remove_table p w).1 ≢ ok c
unfolding remove_table
remove_forgets p c w h r = elim (Option-cases (lookup p w.table)) [
  | inl e ↦ ground (arith, e)
  | inr (b, e) ↦ ground (arith, e, lookup-erase_self p w.table)
]

write_reads : (p b : Text) (w : Box) → read_table p (write_table p b w).1 ≡ ok b
unfolding write_table
write_reads p b w = rw (lookup-insert_self p b w.table) refl

pub box-IsDisk : IsDisk box_disk
box-IsDisk = record {
  mkdir_keeps = λ d q c w r. r;
  write_reads = λ p b w h. write_reads p b w;
  write_keeps = write_keeps;
  rename_moves = λ p q b w r h. rename-reads p q b w r;
  rename_keeps = rename_keeps;
  remove_forgets = remove_forgets;
}

-- A text behind its length, and what follows it.
unfoldable pub parts : ℕ → Text → Text × Text
parts zero s = ([], s)
parts (suc n) [] = ([], [])
parts (suc n) (c ∷ s) = let rest = parts n s in (c ∷ rest.0, rest.1)

pub parts-length : (s t : Text) → parts (length s) (s ++ t) ≡ (s, t)
unfolding parts
parts-length [] t = refl
parts-length (c ∷ s) t = rw (parts-length s t) refl

abbrev pub bad_input : Error
bad_input = external (lit "unexpected end of JSON input")

abbrev pub take_number : Text → Result Error ℤ
take_number (zero ∷ n ∷ []) = ok (pos n)
take_number (suc k ∷ n ∷ []) = ok (negsuc n)
take_number s = err bad_input

abbrev pub number : ℤ → Text
number (pos n) = 0 ∷ n ∷ []
number (negsuc n) = 1 ∷ n ∷ []

take_number-number : (x : ℤ) → take_number (number x) ≡ ok x
take_number-number (pos n) = refl
take_number-number (negsuc n) = refl

-- Two texts, a time and a number.
unfoldable pub decode_rest : Text → Text → Text → Result Error RuntimeInfo
decode_rest addr token [] = err bad_input
decode_rest addr token (t ∷ s) = elim (take_number s) [
  | err e ↦ err e
  | ok n ↦ ok record { addr = addr; token = token; pid = n; started_at = t }
]

unfoldable pub decode_token : Text → Text → Result Error RuntimeInfo
unfolding decode_rest parts
decode_token addr [] = err bad_input
decode_token addr (n ∷ s) = let split = parts n s in decode_rest addr split.0 split.1

unfoldable pub decode_info : Text → Result Error RuntimeInfo
unfolding decode_token parts
decode_info [] = err bad_input
decode_info (n ∷ s) = let split = parts n s in decode_token split.0 split.1

unfoldable pub encode_info : RuntimeInfo → Text
encode_info info =
    length info.addr
    ∷ (info.addr ++ length info.token ∷ (info.token ++ info.started_at ∷ number info.pid))

abbrev pub box_json : Codec RuntimeInfo
box_json = record { encode = λ i. ok (encode_info i); decode = decode_info }

decode_rest-number :
    (addr token : Text) (t : ℕ) (n : ℤ)
    → decode_rest addr token (t ∷ number n)
      ≡ ok record { addr = addr; token = token; pid = n; started_at = t }
unfolding decode_rest
decode_rest-number addr token t n = rw (decode_rest, take_number-number n) refl

decode_token-length :
    (addr token rest : Text)
    → decode_token addr (length token ∷ (token ++ rest)) ≡ decode_rest addr token rest
unfolding decode_token
decode_token-length addr token rest = ap (λ s. decode_rest addr s.0 s.1) (parts-length token rest)

decode_info-length :
    (addr rest : Text) → decode_info (length addr ∷ (addr ++ rest)) ≡ decode_token addr rest
unfolding decode_info
decode_info-length addr rest = ap (λ s. decode_token s.0 s.1) (parts-length addr rest)

decode-encode : (info : RuntimeInfo) → decode_info (encode_info info) ≡ ok info
unfolding encode_info
decode-encode info =
    decode_info-length info.addr _
    ∙ (decode_token-length info.addr info.token _
        ∙ decode_rest-number info.addr info.token info.started_at info.pid)

pub box-IsFaithful : IsFaithful box_json
box-IsFaithful info b h =
    let same : encode_info info ≡ b = ground (arith, h) in rw (sym same) (decode-encode info)

-- Where no executable is copied.
abbrev pub unix_copier : {W : Type 0} → CopyApi W
unix_copier = record {
  is_windows = false;
  now = λ w. 0;
  runner_dir = λ p. p;
  join = λ p q. p ++ lit "/" ++ q;
  ext = λ p. [];
  mkdir_all = λ p w. (none, w);
  open_file = λ p w. (err no_file, w);
  file_mode = λ h w. none;
  create_file = λ p m w. (err no_file, w);
  copy = λ h i w. (none, w);
  sync = λ h w. (none, w);
  close = λ h w. w;
}
