-- ===== src/Common/Text.antt =====
-- Python's text operations that the program uses on settings, payloads and transcripts. Letters are
-- lowered over ASCII and the Russian alphabet: the program compares the lowered texts with words of
-- these letters.
use Prim.Native.Nat.{ℕ, zero, suc, ◌+◌, ◌*◌, ◌-◌, ◌/◌, ◌%◌, ◌<◌}
use mathlib.Core.Logic.{inl, inr}
use Prim.Native.Char.{Char, code}
use Prim.Native.String.{String, char_at}
use mathlib.Core.Path.{◌≡◌, refl}
use native.Mathlib.Omega.{arith}
use mathlib.Core.Bool.{Bool, true, false, ◌&&◌, ◌||◌}
use mathlib.Core.List.{List, [], ◌∷◌}
use text.Mathlib.Text.{◌==◌}
use interview_analytics_agen.Common.Tests.{leb, ◌==◌ as nat_eq, if◌then◌else◌, leb→le, Bool-cases}

-- `bool(text)` is `not (is_blank text)`.
abbrev pub is_empty : String → Bool
is_empty s = s == ""

-- The characters that `str.strip()` and `\s` take for white space.
abbrev pub is_space : Char → Bool
is_space ch =
    let c = code ch in
    (leb 9 c && leb c 13)
    || (leb 28 c && leb c 32)
    || nat_eq c 133
    || nat_eq c 160
    || nat_eq c 5760
    || (leb 8192 c && leb c 8202)
    || (leb 8232 c && leb c 8233)
    || nat_eq c 8239
    || nat_eq c 8287
    || nat_eq c 12288

abbrev lower_char : Char → Char
lower_char ch =
    let c = code ch in
    if leb b'A' c && leb c b'Z'
    then char_at "abcdefghijklmnopqrstuvwxyz" (c - b'A')
    else if leb 1040 c && leb c 1071
    then char_at "абвгдежзийклмнопрстуфхцчшщъыьэюя" (2 * (c - 1040))
    else if nat_eq c 1025
    then "ё"
    else ch

-- `text.lower()`.
unfoldable pub lower : String → String
lower String.[] = String.[]
lower (String.◌∷◌ c s) = String.◌∷◌ (lower_char c) (lower s)

lstrip : String → String
lstrip String.[] = String.[]
lstrip (String.◌∷◌ c s) = let rest = lstrip s in if is_space c then rest else String.◌∷◌ c s

-- `text.rstrip()`
unfoldable pub rstrip : String → String
rstrip String.[] = String.[]
rstrip (String.◌∷◌ c s) =
    let rest = rstrip s in if is_empty rest && is_space c then String.[] else String.◌∷◌ c rest

-- `text.strip()`.
unfoldable pub strip : String → String
unfolding lstrip rstrip
strip s = rstrip (lstrip s)

-- `(text or "").strip().lower()`.
unfoldable pub normalize : String → String
unfolding strip lower
normalize s = lower (strip s)

add_to_first : Char → List String → List String
add_to_first c [] = String.◌∷◌ c String.[] ∷ []
add_to_first c (part ∷ parts) = String.◌∷◌ c part ∷ parts

-- The parts of a text between the characters that satisfy a test: one part more than there are
-- such characters.
unfoldable pub split_where : (Char → Bool) → String → List String
unfolding add_to_first
split_where test String.[] = String.[] ∷ []
split_where test (String.◌∷◌ c s) =
    let rest = split_where test s in if test c then String.[] ∷ rest else add_to_first c rest

-- `text.split(",")`
unfoldable pub split_commas : String → List String
unfolding split_where
split_commas = split_where (λ c. nat_eq (code c) b',')

-- `{v for v in re.split(r"[,\s]+", text.strip()) if v}`: the parts that are not empty.
unfoldable pub nonempty_parts : List String → List String
nonempty_parts [] = []
nonempty_parts (part ∷ parts) =
    let rest = nonempty_parts parts in if is_empty part then rest else part ∷ rest

unfoldable pub words : String → List String
unfolding split_where nonempty_parts strip
words s = nonempty_parts (split_where (λ c. nat_eq (code c) b',' || is_space c) (strip s))

-- `{k.strip() for k in text.split(",") if k.strip()}`, as a list without the empty text.
pub strip_all : List String → List String
unfolding strip
strip_all [] = []
strip_all (part ∷ parts) =
    let rest = strip_all parts in if is_empty (strip part) then rest else strip part ∷ rest

unfoldable pub parse_csv : String → List String
unfolding split_commas strip_all
parse_csv raw = strip_all (split_commas raw)

-- `text in set`.
unfoldable pub contains : List String → String → Bool
contains [] k = false
contains (x ∷ xs) k = x == k || contains xs k

-- `bool(a & b)`.
unfoldable pub meets : List String → List String → Bool
unfolding contains
meets [] ys = false
meets (x ∷ xs) ys = contains ys x || meets xs ys

-- `text.startswith(prefix)`.
abbrev pub starts_with : String → String → Bool
starts_with s String.[] = true
starts_with String.[] (String.◌∷◌ p ps) = false
starts_with (String.◌∷◌ c s) (String.◌∷◌ p ps) = nat_eq (code c) (code p) && starts_with s ps

-- `text[n:]`
abbrev pub drop_prefix : ℕ → String → String
drop_prefix zero s = s
drop_prefix (suc n) String.[] = String.[]
drop_prefix (suc n) (String.◌∷◌ c s) = drop_prefix n s

-- `text[:n]`
abbrev pub take_prefix : ℕ → String → String
take_prefix zero s = String.[]
take_prefix (suc n) String.[] = String.[]
take_prefix (suc n) (String.◌∷◌ c s) = String.◌∷◌ c (take_prefix n s)

-- `character in text`
unfoldable pub has_char : ℕ → String → Bool
has_char n String.[] = false
has_char n (String.◌∷◌ c s) = nat_eq (code c) n || has_char n s

-- An f-string, by its parts.
unfoldable pub format : List String → String
format [] = ""
format (part ∷ parts) = Prim.Native.String.◌++◌ part (format parts)

-- `text.lstrip("/")`
unfoldable pub lstrip_slashes : String → String
lstrip_slashes String.[] = String.[]
lstrip_slashes (String.◌∷◌ c s) =
    let rest = lstrip_slashes s in if nat_eq (code c) b'/' then rest else String.◌∷◌ c s

-- `text.split("/")`
unfoldable pub split_slashes : String → List String
unfolding split_where
split_slashes = split_where (λ c. nat_eq (code c) b'/')

unfoldable pub digits : ℕ → ℕ → String → String
digits zero n acc = acc
digits (suc fuel) n acc =
    let acc' = String.◌∷◌ (char_at "0123456789" (n % 10)) acc in
    let more = digits fuel (n / 10) acc' in if leb 10 n then more else acc'

-- `str(n)`
unfoldable pub decimal : ℕ → String
unfolding digits
decimal n = digits (suc n) n ""

-- Any fuel above the number gives the same digits.
digits_enough : (f g n : ℕ) (acc : String) → n < f → n < g → digits f n acc ≡ digits g n acc
unfolding digits
digits_enough zero g n acc hf hg = absurd (omega arith)
digits_enough (suc f) zero n acc hf hg = absurd (omega arith)
digits_enough (suc f) (suc g) n acc hf hg = elim (Bool-cases (leb 10 n)) [
  | inl big ↦ rw big (
      digits_enough f g (n / 10) (String.◌∷◌ (char_at "0123456789" (n % 10)) acc)
        (omega (arith, leb→le 10 n big)) (omega (arith, leb→le 10 n big)))
  | inr small ↦ rw small refl
]

pub decimal-digits : (fuel n : ℕ) → n < fuel → digits fuel n "" ≡ decimal n
unfolding decimal
decimal-digits fuel n h = digits_enough fuel (suc n) n "" h (omega arith)

-- `text.isdigit()` for a text that is not empty, over ASCII, and `int(text)`.
unfoldable pub all_digits : String → Bool
all_digits String.[] = true
all_digits (String.◌∷◌ c s) = leb b'0' (code c) && leb (code c) b'9' && all_digits s

unfoldable pub number : ℕ → String → ℕ
number acc String.[] = acc
number acc (String.◌∷◌ c s) = number (acc * 10 + (code c - b'0')) s

number_test : number 0 "0120" ≡ 120
unfolding number
number_test = refl

decimal_test : decimal 1207 ≡ "1207"
unfolding decimal
decimal_test = refl

parse_csv_test : parse_csv " a, ,b ,," ≡ "a" ∷ "b" ∷ []
unfolding parse_csv
parse_csv_test = refl

words_test : words " a b,c ,, d " ≡ "a" ∷ "b" ∷ "c" ∷ "d" ∷ []
unfolding words
words_test = refl

normalize_test : normalize "  JWT \n" ≡ "jwt"
unfolding normalize
normalize_test = refl

pub strip_all-nonempty : (parts : List String) → contains (strip_all parts) "" ≡ false
unfolding strip_all contains
strip_all-nonempty [] = refl
strip_all-nonempty (p ∷ parts) = ground (arith, strip_all-nonempty parts)

-- An empty key is never among the parsed ones.
pub parse_csv-nonempty : (raw : String) → contains (parse_csv raw) "" ≡ false
unfolding parse_csv
parse_csv-nonempty raw = strip_all-nonempty (split_commas raw)
