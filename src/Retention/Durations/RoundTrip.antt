-- ===== src/Retention/Durations/RoundTrip.antt =====
-- src/retention/durations.py: a printed duration is read back.
use Prim.Native.Nat.{◌/◌, ◌%◌}
use ml_crypto_trading.Prelude.{
  ℕ, zero, suc, ◌+◌, ◌*◌, ◌<◌, Option, none, some, [], ◌∷◌, Bool, true, false, ◌&&◌, not, ltb, ◌==◌,
  ◌≡◌, refl, sym, ap, ◌∙◌, arith, inl, inr, Bool-cases, if_else, if_cases, if◌then◌else◌,
}
use ml_crypto_trading.Prelude.Int.{ℤ, pos, negsuc, pos_part, neg_part}
use ml_crypto_trading.Retention.Durations.{
  Codes, Parsed, parsed, refused, format_seconds, format_minus, delta_limit, timedelta, drop_blanks,
  drop_last_blanks, stripped, is_blank, keep, is_keep, is_digit, scan, parse_stripped, text, parse,
  print, with_unit, format,
}

scan-print :
    (fuel n : ℕ) (rest : Codes) (seen : Bool)
    → n < fuel
    → scan seen 0 (print fuel n rest) ≡ scan true n rest
scan-print zero n rest seen h = absurd (omega arith)
scan-print (suc fuel) n rest seen h =
    ground (arith, scan-print fuel (n / 10) ((b'0' + n % 10) ∷ rest) seen)

print_head :
    (fuel n : ℕ) (rest : Codes)
    → n < fuel
    → (c : ℕ) × (s : Codes) × (print fuel n rest ≡ c ∷ s) × (is_digit c ≡ true)
print_head zero n rest h = absurd (omega arith)
print_head (suc fuel) n rest h = elim (Bool-cases (ltb n 10)) [
  | inl small ↦ (b'0' + n, rest, rw small refl, ground arith)
  | inr large ↦ rw large (print_head fuel (n / 10) ((b'0' + n % 10) ∷ rest) (ground arith))
]

drop_last_digit :
    (c : ℕ) (rest : Codes)
    → is_digit c ≡ true
    → drop_last_blanks rest ≡ rest
    → drop_last_blanks (c ∷ rest) ≡ c ∷ rest
drop_last_digit c rest h e =
    let solid : is_blank c ≡ false = ground arith in
    ap (λ b. keep b (drop_last_blanks rest) (c ∷ drop_last_blanks rest)) solid ∙ ap (λ s. c ∷ s) e

drop_last_blanks-print :
    (fuel n : ℕ) (rest : Codes)
    → n < fuel
    → drop_last_blanks rest ≡ rest
    → drop_last_blanks (print fuel n rest) ≡ print fuel n rest
drop_last_blanks-print zero n rest h e = absurd (omega arith)
drop_last_blanks-print (suc fuel) n rest h e = elim (Bool-cases (ltb n 10)) [
  | inl small ↦ rw small (drop_last_digit (b'0' + n) rest (ground arith) e)
  | inr large ↦ rw large (
      drop_last_blanks-print fuel (n / 10) ((b'0' + n % 10) ∷ rest) (ground arith)
        (drop_last_digit (b'0' + n % 10) rest (ground arith) e))
]

drop_digit : (c : ℕ) (s : Codes) → is_digit c ≡ true → drop_blanks (c ∷ s) ≡ c ∷ s
drop_digit c s h = ground arith

is_keep_digit : (c : ℕ) (s : Codes) → is_digit c ≡ true → is_keep (c ∷ s) ≡ false
is_keep_digit c [] h = refl
is_keep_digit c (a ∷ []) h = refl
is_keep_digit c (a ∷ b ∷ []) h = refl
is_keep_digit c (a ∷ b ∷ d ∷ []) h = ground arith
is_keep_digit c (a ∷ b ∷ d ∷ e ∷ s) h = refl

stripped-print :
    (fuel n : ℕ) (rest : Codes)
    → n < fuel
    → drop_last_blanks rest ≡ rest
    → stripped (print fuel n rest) ≡ print fuel n rest
stripped-print fuel n rest h e =
    let (c, s, p, d) = print_head fuel n rest h in
    ap drop_last_blanks (ap drop_blanks p ∙ drop_digit c s d ∙ sym p)
    ∙ drop_last_blanks-print fuel n rest h e

parse-with_unit :
    (n u : ℕ)
    → drop_last_blanks (u ∷ []) ≡ u ∷ []
    → parse (text (with_unit n u)) ≡ scan true n (u ∷ [])
unfolding parse
parse-with_unit n u e =
    let (c, s, p, d) = print_head (suc n) n (u ∷ []) (omega arith) in
    ap parse_stripped (stripped-print (suc n) n (u ∷ []) (omega arith) e)
    ∙ if_else (is_keep (with_unit n u)) _ _ (ap is_keep p ∙ is_keep_digit c s d)
    ∙ scan-print (suc n) n (u ∷ []) false (omega arith)

module _ (total : ℕ) (h : total < delta_limit) where
  abbrev IsRead : Codes → Type 0
  IsRead s = parse (text s) ≡ parsed (some (pos (total * 1_000_000)))

  timedelta_lem :
      (seconds : ℕ) → seconds ≡ total → timedelta seconds ≡ parsed (some (pos (total * 1_000_000)))
  timedelta_lem seconds e = ground arith

  with_unit-IsRead :
      (seconds u : ℕ)
      → scan true (total / seconds) (u ∷ []) ≡ timedelta (total / seconds * seconds)
      → drop_last_blanks (u ∷ []) ≡ u ∷ []
      → total / seconds * seconds ≡ total
      → IsRead (with_unit (total / seconds) u)
  with_unit-IsRead seconds u unit e exact =
      parse-with_unit (total / seconds) u e ∙ unit ∙ timedelta_lem (total / seconds * seconds) exact

  format_seconds-IsRead : IsRead (format_seconds total)
  format_seconds-IsRead =
      if_cases IsRead (total % 86_400 == 0 && not (total == 0))
        (λ e. with_unit-IsRead 86_400 b'd' refl refl (ground arith))
        (λ e.
          if_cases IsRead (total % 3_600 == 0 && not (total == 0))
            (λ e. with_unit-IsRead 3_600 b'h' refl refl (ground arith))
            (λ e.
              if_cases IsRead (total % 60 == 0 && not (total == 0))
                (λ e. with_unit-IsRead 60 b'm' refl refl (ground arith))
                (λ e. parse-with_unit total b's' refl ∙ timedelta_lem (total * 1) (omega arith))))

is_keep_minus : (s : Codes) → is_keep (b'-' ∷ s) ≡ false
is_keep_minus [] = refl
is_keep_minus (a ∷ []) = refl
is_keep_minus (a ∷ b ∷ []) = refl
is_keep_minus (a ∷ b ∷ c ∷ []) = refl
is_keep_minus (a ∷ b ∷ c ∷ d ∷ s) = refl

parse_minus : (s : Codes) → parse (text (b'-' ∷ s)) ≡ refused
unfolding parse
parse_minus s =
    if_else (is_keep (b'-' ∷ drop_last_blanks s)) _ _ (is_keep_minus (drop_last_blanks s))

-- What a printed duration is read as: the whole seconds of a time delta that is not negative or that is
-- less than a second; other negative ones are refused.
abbrev pub read_back : Option ℤ → Parsed
read_back none = parsed none
read_back (some (pos n)) = parsed (some (pos (n / 1_000_000 * 1_000_000)))
read_back (some (negsuc n)) = if ltb (suc n) 1_000_000 then parsed (some (pos 0)) else refused

parse-format_minus :
    (total : ℕ)
    → parse (text (format_minus total)) ≡ (if total == 0 then parsed (some (pos 0)) else refused)
parse-format_minus zero = format_seconds-IsRead 0 (omega arith)
parse-format_minus (suc n) =
    parse_minus (format_seconds (suc n)) ∙ sym (if_else (suc n == 0) _ _ (ground arith))

less_than_second : (n : ℕ) → (n / 1_000_000 == 0) ≡ ltb n 1_000_000
less_than_second n = ground arith

keep_read : parse (text (format none)) ≡ parsed none
unfolding parse format
keep_read = refl

-- The indefinite duration is printed and parsed to itself; a time delta of less than 2 ** 33 seconds,
-- for which the float of its seconds is exact to the microsecond, is parsed to its whole seconds if it
-- is not negative, to 0 if it is negative and less than a second, and refused if it is any other.
pub parse-format :
    (duration : Option ℤ)
    → ((microseconds : ℤ)
        → duration ≡ some microseconds
        → pos_part microseconds + neg_part microseconds < 8_589_934_592_000_000)
    → parse (text (format duration)) ≡ read_back duration
unfolding format
parse-format none h = keep_read
parse-format (some (pos n)) h =
    let small : n + 0 < 8_589_934_592_000_000 = h (pos n) refl in
    format_seconds-IsRead (n / 1_000_000) (omega arith)
parse-format (some (negsuc n)) h =
    parse-format_minus (suc n / 1_000_000)
    ∙ ap (λ b. if b then parsed (some (pos 0)) else refused) (less_than_second (suc n))
