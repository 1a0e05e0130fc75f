-- ===== src/Server/Passwords.antt =====
-- internal/server/auth.go: tokens, and argon2id over passwords. What argon2id costs is part of the
-- result: the list of the parameters of its runs.
use secret_git.Prelude.{
  Text, codes, ℕ, zero, suc, ◌+◌, ◌-◌, ◌*◌, ◌%◌, ◌^◌, Bool, ◌&&◌, Option, none, some, List, [], ◌∷◌,
  ◌++◌, if◌then◌else◌, ◌==◌, nat_eq, text_eq, option_eq, Result, ok, err, or_err, length, leb, ltb,
}
use secret_git.Prelude.Results.{◌>>=◌}
use secret_git.Library.{Library}
use secret_git.Hex.{hex_encode, hex_decode}
use secret_git.Jcs.Decimal.{decimal}
use secret_git.Split.{is_space}
use secret_git.Server.{ServerError, bad_salt, bad_params, bad_stored_hash}

abbrev pub argon_memory_kib : ℕ
argon_memory_kib = 19456

abbrev pub argon_time : ℕ
argon_time = 2

abbrev pub argon_threads : ℕ
argon_threads = 1

abbrev pub argon_salt_len : ℕ
argon_salt_len = 16

abbrev pub argon_key_len : ℕ
argon_key_len = 32

pub record Params : Type 0 where
  pub mem : ℕ
  pub time : ℕ
  pub threads : ℕ
  pub key_len : ℕ

-- One run of argon2id: its parameters and the length of its salt.
pub record Cost : Type 0 where
  pub params : Params
  pub salt_len : ℕ

abbrev pub production : Params
production = record {
  mem = argon_memory_kib;
  time = argon_time;
  threads = argon_threads;
  key_len = argon_key_len;
}

-- formatParams
unfoldable pub format_params : Text
unfolding decimal
format_params =
    codes "argon2id,m="
    ++ (decimal argon_memory_kib
        ++ (codes ",t="
            ++ (decimal argon_time
                ++ (codes ",p="
                    ++ (decimal argon_threads ++ (codes ",k=" ++ decimal argon_key_len))))))

-- strings.Split(s, ","): the text in front of the first comma joins `part`.
unfoldable pub split_commas : Text → Text → List Text
split_commas part [] = part ∷ []
split_commas part (c ∷ cs) =
    let fresh = split_commas [] cs in
    let more = split_commas (part ++ (c ∷ [])) cs in if c == b',' then part ∷ fresh else more

-- strings.SplitN(part, "=", 2), where there is a second piece.
unfoldable pub split_equals : Text → Text → Option (Text × Text)
split_equals key [] = none
split_equals key (c ∷ cs) =
    let rest = split_equals (key ++ (c ∷ [])) cs in if c == b'=' then some (key, cs) else rest

-- fmt.Sscanf(s, "%d", &v) into a uint64: leading spaces are skipped, and what follows the digits
-- is ignored.
unfoldable pub scan_digits : Option ℕ → Text → Option ℕ
scan_digits acc [] = acc
scan_digits none (c ∷ cs) =
    let rest = scan_digits (some (c - 48)) cs in if leb 48 c && leb c 57 then rest else none
scan_digits (some n) (c ∷ cs) =
    let rest = scan_digits (some (n * 10 + (c - 48))) cs in
    if leb 48 c && leb c 57 then rest else some n

unfoldable pub skip_spaces : Text → Text
unfolding is_space
skip_spaces [] = []
skip_spaces (c ∷ cs) = if is_space c then skip_spaces cs else c ∷ cs

abbrev in_uint64 : Option ℕ → Option ℕ
in_uint64 none = none
in_uint64 (some n) = if ltb n (2 ^ 64) then some n else none

unfoldable pub scan_uint : Text → Option ℕ
unfolding scan_digits skip_spaces
scan_uint s = in_uint64 (scan_digits none (skip_spaces s))

unfoldable pub set_param : Text → ℕ → Params → Params
set_param key v p =
    if key == codes "m"
    then record p { mem = v % 2 ^ 32 }
    else if key == codes "t"
    then record p { time = v % 2 ^ 32 }
    else if key == codes "p"
    then record p { threads = v % 2 ^ 8 }
    else if key == codes "k"
    then record p { key_len = v % 2 ^ 32 }
    else p

unfoldable pub read_part : Option (Text × Text) → Params → Result ServerError Params
unfolding scan_uint set_param
read_part none p = ok p
read_part (some (key, value)) p = do v ← or_err (scan_uint value) bad_params; ok (set_param key v p)

unfoldable pub read_parts : List Text → Params → Result ServerError Params
unfolding read_part split_equals
read_parts [] p = ok p
read_parts (part ∷ parts) p = do p' ← read_part (split_equals [] part) p; read_parts parts p'

-- parseParams
unfoldable pub parse_params : Text → Result ServerError Params
unfolding read_parts split_commas
parse_params s = read_parts (split_commas [] s) production

module _ ⦃lib : Library⦄ where
  -- newToken, from 32 drawn bytes
  unfoldable pub new_token : Text → Text
  new_token drawn = lib.base64_raw_url drawn

  unfoldable pub hash_token : Text → Text
  hash_token token = hex_encode (lib.sha256 token)

  unfoldable pub argon2_key : Params → Text → Text → Text
  argon2_key p password salt = lib.argon2id password salt p.time p.mem p.threads p.key_len

  -- hashPassword: salt, parameters and hash, from a salt of 16 drawn bytes
  unfoldable pub hash_password : Text → Text → Text × Text × Text
  hash_password salt password =
      (hex_encode salt, format_params, hex_encode (argon2_key production password salt))

  -- The end of verifyPassword, once the salt and the parameters are read: one run.
  unfoldable pub compare_hash : Params → Text → Text → Text → Result ServerError Bool × List Cost
  compare_hash p password salt hash_hex = (
    (do
      want ← or_err (hex_decode hash_hex) bad_stored_hash
      ok (argon2_key p password salt == want)),
    record { params = p; salt_len = length salt } ∷ [],
  )

  abbrev with_params :
      Result ServerError Params → Text → Text → Text → Result ServerError Bool × List Cost
  with_params (err e) password salt hash_hex = (err e, [])
  with_params (ok p) password salt hash_hex = compare_hash p password salt hash_hex

  abbrev with_salt : Option Text → Text → Text → Text → Result ServerError Bool × List Cost
  with_salt none password params hash_hex = (err bad_salt, [])
  with_salt (some salt) password params hash_hex =
      with_params (parse_params params) password salt hash_hex

  unfoldable pub verify_password : Text → Text → Text → Text → Result ServerError Bool × List Cost
  unfolding compare_hash
  verify_password password salt_hex params hash_hex =
      with_salt (hex_decode salt_hex) password params hash_hex

-- decoyArgonSaltHex, decoyArgonHashHex
abbrev repeat_text : ℕ → Text → Text
repeat_text zero s = []
repeat_text (suc n) s = s ++ repeat_text n s

unfoldable pub decoy_salt_hex : Text
decoy_salt_hex = repeat_text argon_salt_len (codes "ab")

unfoldable pub decoy_hash_hex : Text
decoy_hash_hex = repeat_text argon_key_len (codes "cd")
