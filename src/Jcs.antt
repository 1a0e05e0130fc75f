-- ===== src/Jcs.antt =====
-- internal/manifest/jcs.go: the canonical JSON encoder (RFC 8785). Strings are lists of code
-- points here, and so is the buffer; UTF-8 is left implicit.
pub mod Decimal
use Prim.Native.Nat.{bit_and}
use secret_git.Prelude.{
  Text, codes, ℕ, ◌+◌, ◌-◌, ◌/◌, ◌%◌, ◌<◌, ◌≡◌, refl, Bool, true, false, ◌&&◌, ◌||◌, Option, none,
  some, List, [], ◌∷◌, ◌++◌, arith, ltb, leb, if◌then◌else◌, ◌==◌, nat_eq, text_eq, Result, ok, err,
}
use secret_git.Prelude.Results.{◌>>=◌}
use secret_git.Errors.{Error, unsupported_type}
use Decimal.{decimal}

-- The Go values that `encodeValue` distinguishes; `other` is a value of any other type.
mutual
  pub data Value : Type 0 where
    null other : Value
    str : Text → Value
    num : ℕ → Value
    strs : List Text → Value
    arr : Items → Value
    str_map : List (Text × Text) → Value
    obj : Fields → Value

  pub data Items : Type 0 where
    nil : Items
    item : Value → Items → Items

  pub data Fields : Type 0 where
    end : Fields
    field : Text → Value → Fields → Fields

hex_digits : ℕ → ℕ
hex_digits d = if ltb d 10 then d + 48 else d + 87

-- One rune of `encodeString`.
unfoldable pub escape : ℕ → Text
unfolding hex_digits
escape r =
    if r == b'"'
    then codes "\\\""
    else if r == 92
    then codes "\\\\"
    else if r == 8
    then codes "\\b"
    else if r == 9
    then codes "\\t"
    else if r == 10
    then codes "\\n"
    else if r == 12
    then codes "\\f"
    else if r == 13
    then codes "\\r"
    else if ltb r 32
    then codes "\\u00" ++ hex_digits ((r / 16) % 16) ∷ hex_digits (r % 16) ∷ []
    else r ∷ []

unfoldable pub escape_all : Text → Text
escape_all [] = []
escape_all (r ∷ s) = escape r ++ escape_all s

unfoldable pub encode_string : Text → Text
encode_string s = b'"' ∷ (escape_all s ++ (b'"' ∷ []))

-- `utf16.Encode`: a rune outside Unicode, or a surrogate, becomes U+FFFD.
unfoldable pub utf16 : Text → Text
utf16 [] = []
utf16 (r ∷ s) =
    let rest = utf16 s in
    if ltb r 0xd800
    then r ∷ rest
    else if ltb r 0xe000
    then 0xfffd ∷ rest
    else if ltb r 0x10000
    then r ∷ rest
    else if leb r 0x10ffff
    then (0xd800 + (r - 0x10000) / 1024) ∷ (0xdc00 + (r - 0x10000) % 1024) ∷ rest
    else 0xfffd ∷ rest

-- The first place at which two code-unit sequences differ decides, else the length.
unfoldable pub units_less : Text → Text → Bool
units_less [] [] = false
units_less [] (y ∷ ys) = true
units_less (x ∷ xs) [] = false
units_less (x ∷ xs) (y ∷ ys) = let rest = units_less xs ys in if x == y then rest else ltb x y

unfoldable pub jcs_less : Text → Text → Bool
unfolding utf16 units_less
jcs_less a b = units_less (utf16 a) (utf16 b)

-- `sort.Slice` over the members by their keys; the keys of a map are distinct.
unfoldable pub insert_member : Text → Text → List (Text × Text) → List (Text × Text)
insert_member k v [] = (k, v) ∷ []
insert_member k v ((j, w) ∷ ms) =
    let rest = insert_member k v ms in if jcs_less j k then (j, w) ∷ rest else (k, v) ∷ (j, w) ∷ ms

unfoldable pub sort_members : List (Text × Text) → List (Text × Text)
unfolding insert_member jcs_less
sort_members [] = []
sort_members ((k, v) ∷ ms) = insert_member k v (sort_members ms)

-- What is written between the brackets: a comma before each element but the first.
unfoldable pub join_comma : List Text → Text
join_comma [] = []
join_comma (x ∷ []) = x
join_comma (x ∷ y ∷ xs) = x ++ (b',' ∷ join_comma (y ∷ xs))

unfoldable pub member_texts : List (Text × Text) → List Text
unfolding encode_string
member_texts [] = []
member_texts ((k, v) ∷ ms) = (encode_string k ++ (b':' ∷ v)) ∷ member_texts ms

-- `encodeObject`, over the members with their values already encoded.
unfoldable pub encode_object : List (Text × Text) → Text
unfolding sort_members member_texts join_comma
encode_object ms = b'{' ∷ (join_comma (member_texts (sort_members ms)) ++ (b'}' ∷ []))

unfoldable pub encode_strings : List Text → List Text
unfolding encode_string
encode_strings [] = []
encode_strings (s ∷ ss) = encode_string s ∷ encode_strings ss

unfoldable pub encode_array : List Text → Text
unfolding join_comma
encode_array xs = b'[' ∷ (join_comma xs ++ (b']' ∷ []))

unfoldable pub encode_pairs : List (Text × Text) → List (Text × Text)
unfolding encode_string
encode_pairs [] = []
encode_pairs ((k, v) ∷ ms) = (k, encode_string v) ∷ encode_pairs ms

unfoldable mutual
  unfolding encode_string encode_strings encode_array encode_pairs encode_object decimal

  pub encode_value : Value → Result Error Text
  encode_value null = ok (codes "null")
  encode_value (str s) = ok (encode_string s)
  encode_value (num n) = ok (decimal n)
  encode_value (strs ss) = ok (encode_array (encode_strings ss))
  encode_value (arr xs) = do ts ← encode_items xs; ok (encode_array ts)
  encode_value (str_map ms) = ok (encode_object (encode_pairs ms))
  encode_value (obj fs) = do ms ← encode_fields fs; ok (encode_object ms)
  encode_value other = err unsupported_type

  pub encode_items : Items → Result Error (List Text)
  encode_items nil = ok []
  encode_items (item v xs) = do t ← encode_value v; ts ← encode_items xs; ok (t ∷ ts)

  pub encode_fields : Fields → Result Error (List (Text × Text))
  encode_fields end = ok []
  encode_fields (field k v fs) = do t ← encode_value v; ms ← encode_fields fs; ok ((k, t) ∷ ms)

-- canonicalJSON, CanonicalJSON
unfoldable pub canonical_json : Value → Result Error Text
unfolding encode_value
canonical_json v = encode_value v
