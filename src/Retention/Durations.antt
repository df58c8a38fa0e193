-- ===== src/Retention/Durations.antt =====
-- src/retention/durations.py. A text is the list of its code points, in ASCII; a time delta is a
-- number of microseconds, and `none` stands for indefinite retention.
pub mod RoundTrip
use Prim.Native.Nat.{◌/◌, ◌%◌}
use ml_crypto_trading.Prelude.{
  ℕ, zero, suc, ◌+◌, ◌-◌, ◌*◌, Option, none, some, List, [], ◌∷◌, Bool, true, false, ◌&&◌, ◌||◌,
  not, leb, ltb, ◌==◌, if◌then◌else◌,
}
use ml_crypto_trading.Prelude.Int.{ℤ, pos, negsuc, ◌-ℤ◌}

abbrev pub Codes : Type 0
Codes = List ℕ

pub data Parsed : Type 0 where
  parsed : Option ℤ → Parsed
  -- `ValueError`, or `OverflowError` for more than `timedelta` can hold
  refused : Parsed

-- `timedelta(seconds=...)`, which holds less than 10 ** 9 days, and the other way at most 10 ** 9 - 1
abbrev pub delta_limit : ℕ
delta_limit = 86_400_000_000_000

abbrev pub timedelta : ℕ → Parsed
timedelta seconds =
    if ltb seconds delta_limit then parsed (some (pos (seconds * 1_000_000))) else refused

abbrev minus : ℕ → ℤ
minus n = pos 0 -ℤ pos n

abbrev timedelta_of : ℤ → Parsed
timedelta_of (pos seconds) = timedelta seconds
timedelta_of (negsuc n) =
    if ltb (suc n + 86_399) delta_limit then parsed (some (minus (suc n * 1_000_000))) else refused

abbrev pub is_blank : ℕ → Bool
is_blank c = (leb 9 c && leb c 13) || (leb 28 c && leb c 32)

abbrev pub drop_blanks : Codes → Codes
drop_blanks [] = []
drop_blanks (c ∷ s) = let rest = drop_blanks s in if is_blank c then rest else c ∷ s

abbrev pub keep : Bool → Codes → Codes → Codes
keep true [] s = []
keep b rest s = s

abbrev pub drop_last_blanks : Codes → Codes
drop_last_blanks [] = []
drop_last_blanks (c ∷ s) = let rest = drop_last_blanks s in keep (is_blank c) rest (c ∷ rest)

-- `str(raw).strip()`
abbrev pub stripped : Codes → Codes
stripped s = drop_last_blanks (drop_blanks s)

abbrev to_upper : ℕ → ℕ
to_upper c = if leb 97 c && leb c 122 then c - 32 else c

-- `text.upper() == "KEEP"`
abbrev pub is_keep : Codes → Bool
is_keep (k ∷ e ∷ e' ∷ p ∷ []) =
    to_upper k == b'K' && to_upper e == b'E' && to_upper e' == b'E' && to_upper p == b'P'
is_keep _ = false

abbrev pub is_digit : ℕ → Bool
is_digit c = leb b'0' c && leb c b'9'

-- `_UNIT_SECONDS` of the unit in lower case
abbrev pub unit_seconds : ℕ → Option ℕ
unit_seconds c =
    let u = to_upper c in
    if u == b'D'
    then some 86_400
    else if u == b'H'
    then some 3_600
    else if u == b'M'
    then some 60
    else if u == b'S'
    then some 1
    else none

abbrev scaled : ℕ → Option ℕ → Parsed
scaled value none = refused
scaled value (some seconds) = timedelta (value * seconds)

-- The unit, which ends the text and follows a digit.
abbrev pub unit_of : Bool → ℕ → ℕ → Codes → Parsed
unit_of true value c [] = scaled value (unit_seconds c)
unit_of _ value c _ = refused

-- `_DURATION_PATTERN.match` and `int` of the digits, from the left
abbrev pub scan : Bool → ℕ → Codes → Parsed
scan seen value [] = refused
scan seen value (c ∷ s) =
    let rest = scan true (value * 10 + (c - b'0')) s in
    if is_digit c then rest else unit_of seen value c s

abbrev pub parse_stripped : Codes → Parsed
parse_stripped text = if is_keep text then parsed none else scan false 0 text

pub data Raw : Type 0 where
  missing : Raw
  delta whole : ℤ → Raw
  text : Codes → Raw

-- `parse`; an empty text is refused by the scan.
unfoldable pub parse : Raw → Parsed
parse missing = parsed none
parse (delta microseconds) = parsed (some microseconds)
parse (whole seconds) = timedelta_of seconds
parse (text s) = parse_stripped (stripped s)

-- The decimal digits of a number, before the rest.
abbrev pub print : ℕ → ℕ → Codes → Codes
print zero n rest = rest
print (suc fuel) n rest =
    let more = print fuel (n / 10) ((b'0' + n % 10) ∷ rest) in
    if ltb n 10 then (b'0' + n) ∷ rest else more

-- `f"{n}{unit}"`
abbrev pub with_unit : ℕ → ℕ → Codes
with_unit n unit = print (suc n) n (unit ∷ [])

-- The text of a total of seconds.
abbrev pub format_seconds : ℕ → Codes
format_seconds total =
    if total % 86_400 == 0 && not (total == 0)
    then with_unit (total / 86_400) b'd'
    else if total % 3_600 == 0 && not (total == 0)
    then with_unit (total / 3_600) b'h'
    else if total % 60 == 0 && not (total == 0)
    then with_unit (total / 60) b'm'
    else with_unit total b's'

-- A negative total has a minus in front; where the total is a multiple of the unit, so is its magnitude.
abbrev pub format_minus : ℕ → Codes
format_minus zero = format_seconds zero
format_minus (suc n) = b'-' ∷ format_seconds (suc n)

-- `format`: `int` drops the fraction of a second.
unfoldable pub format : Option ℤ → Codes
format none = b'K' ∷ b'E' ∷ b'E' ∷ b'P' ∷ []
format (some (pos n)) = format_seconds (n / 1_000_000)
format (some (negsuc n)) = format_minus (suc n / 1_000_000)
