-- ===== src/Base/Text.antt =====
-- Texts as the code handles them: code points, white space, decimal numbers.
use Prim.Native.Nat.{ℕ, zero, suc, ◌+◌, ◌-◌, ◌*◌, ◌^◌}
use Prim.Native.Char.{code}
use Prim.Native.String.{String}
use mathlib.Core.Bool.{Bool, true, false, ◌&&◌, ◌||◌}
use mathlib.Core.Option.{Option, none, some}
use mathlib.Core.List.{List, [], ◌∷◌}
use gotel_reserves.Base.Tests.{leb, ltb, ◌==◌, nat_eq, string_eq, if◌then◌else◌}

abbrev pub codes : String → List ℕ
codes String.[] = []
codes (String.◌∷◌ c s) = code c ∷ codes s

-- unicode.IsSpace
abbrev is_space : ℕ → Bool
is_space c =
    (leb 9 c && leb c 13)
    || c == 32
    || c == 0x85
    || c == 0xa0
    || c == 0x1680
    || (leb 0x2000 c && leb c 0x200a)
    || c == 0x2028
    || c == 0x2029
    || c == 0x202f
    || c == 0x205f
    || c == 0x3000

-- strings.TrimSpace
trim_left : String → String
trim_left String.[] = String.[]
trim_left (String.◌∷◌ c s) =
    let rest = trim_left s in if is_space (code c) then rest else String.◌∷◌ c s

trim_right : String → String
trim_right String.[] = String.[]
trim_right (String.◌∷◌ c s) =
    let rest = trim_right s in
    if is_space (code c) && rest == "" then String.[] else String.◌∷◌ c rest

unfoldable pub trim_space : String → String
unfolding trim_left trim_right
trim_space s = trim_right (trim_left s)

-- unicode.ToLower, for letters whose lower case is an ASCII letter: 'A' to 'Z', U+0130 and U+212A
abbrev pub to_lower : ℕ → ℕ
to_lower c =
    if leb b'A' c && leb c b'Z'
    then c + 32
    else if c == 0x130
    then b'i'
    else if c == 0x212a
    then b'k'
    else c

-- strings.ToLower, as code points
abbrev pub lower_codes : String → List ℕ
lower_codes String.[] = []
lower_codes (String.◌∷◌ c s) = to_lower (code c) ∷ lower_codes s

pub same_codes : List ℕ → List ℕ → Bool
same_codes [] [] = true
same_codes (c ∷ cs) (k ∷ ks) = c == k && same_codes cs ks
same_codes _ _ = false

-- strings.ToLower(s) == t, for an ASCII text t
unfoldable pub lower_is : String → String → Bool
unfolding same_codes
lower_is s t = same_codes (lower_codes s) (codes t)

-- s[n:], where the first n characters are ASCII
abbrev pub drop_text : ℕ → String → String
drop_text zero s = s
drop_text (suc n) String.[] = String.[]
drop_text (suc n) (String.◌∷◌ c s) = drop_text n s

-- the first n characters
abbrev pub take_text : ℕ → String → String
take_text zero s = String.[]
take_text (suc n) String.[] = String.[]
take_text (suc n) (String.◌∷◌ c s) = String.◌∷◌ c (take_text n s)

all_spaces : List ℕ → Bool
all_spaces [] = true
all_spaces (c ∷ cs) = is_space c && all_spaces cs

-- strings.TrimSpace(s) == ""
unfoldable pub is_blank : String → Bool
unfolding all_spaces
is_blank s = all_spaces (codes s)

-- the digits of a decimal number, none at the first character that is no digit
digits : ℕ → List ℕ → Option ℕ
digits n [] = some n
digits n (c ∷ cs) =
    let rest = digits (n * 10 + (c - 48)) cs in if leb 48 c && leb c 57 then rest else none

abbrev within_int64 : Option ℕ → Option ℕ
within_int64 none = none
within_int64 (some n) = if ltb n (2 ^ 63) && ltb 0 n then some n else none

unsigned : List ℕ → Option ℕ
unfolding digits
unsigned [] = none
unsigned (c ∷ cs) = within_int64 (digits 0 (c ∷ cs))

signed : List ℕ → Option ℕ
unfolding unsigned
signed [] = none
signed (c ∷ cs) = if c == b'+' then unsigned cs else unsigned (c ∷ cs)

-- strconv.ParseInt(s, 10, 64), where only a positive result is used: `none` stands for an error, a
-- number out of range, zero and a negative number.
unfoldable pub parse_positive : String → Option ℕ
unfolding signed
parse_positive s = signed (codes s)
