-- ===== src/Prelude/Text.antt =====
-- Texts: decidable equality of the native strings, and Python's `upper` and `split` as the program
-- uses them.
use Prim.Native.String.{String}
use mathlib.Core.Path.{◌≡◌, refl}
use Prim.Native.Char.{code}
use Prim.Native.Nat.{ℕ, suc, ◌-◌}
use mathlib.Core.Option.{Option, none, some}
use mathlib.Core.List.{List, [], ◌∷◌}
use mathlib.Core.Bool.{Bool, true, false, ◌&&◌, ◌||◌}
use ml_crypto_trading.Prelude.Tests.{leb, ◌==◌, is_some, holds, if◌then◌else◌}
use mathlib.Core.Logic.{◌↔◌}
use text.Mathlib.Text.{◌==◌ as str_eq}
use text.Mathlib.TextEquality.{eq_iff}

-- A Boolean test that reflects a statement decides it.
unfoldable pub decide_by {ℓ} : {P : Type ℓ} (b : Bool) → (b ≡ true) ↔ P → Dec P
decide_by true h = yes (h.0 refl)
decide_by false h = no (λ p. cc (h.1 p))

unfoldable pub String-discrete : Discrete String
unfolding decide_by
String-discrete s t = decide_by (str_eq s t) (eq_iff s t)

pub holds-String-discrete : (s t : String) → s ≡ t → holds (String-discrete s t) ≡ true
holds-String-discrete s t e = elim (String-discrete s t) as (λ d. holds d ≡ true) [
  | yes p ↦ refl
  | no p ↦ absurd (p e)
]

-- `s.upper()`, on the code points of a text in ASCII.
abbrev to_upper : ℕ → ℕ
to_upper c = if leb 97 c && leb c 122 then c - 32 else c

abbrev pub upper : String → List ℕ
upper String.[] = []
upper (String.◌∷◌ c s) = to_upper (code c) ∷ upper s

abbrev same_codes : List ℕ → List ℕ → Bool
same_codes [] [] = true
same_codes (a ∷ s) (b ∷ t) = a == b && same_codes s t
same_codes _ _ = false

-- `s.upper() == t.upper()`
abbrev pub same_upper : String → String → Bool
same_upper s t = same_codes (upper s) (upper t)

-- `s.split("_")[-1] if "_" in s else None`
abbrev pub after_underscore : String → Option String
after_underscore String.[] = none
after_underscore (String.◌∷◌ c s) =
    let rest = after_underscore s in
    if is_some rest then rest else if code c == 95 then some s else none

-- `len(s)`
abbrev pub len : String → ℕ
len String.[] = 0
len (String.◌∷◌ c s) = suc (len s)

-- White space in ASCII.
abbrev is_space : ℕ → Bool
is_space c = (leb 9 c && leb c 13) || (leb 28 c && leb c 32)

abbrev lstrip : String → String
lstrip String.[] = String.[]
lstrip (String.◌∷◌ c s) = let rest = lstrip s in if is_space (code c) then rest else String.◌∷◌ c s

abbrev keep_char : Bool → String → String → String
keep_char true String.[] s = String.[]
keep_char b rest s = s

abbrev rstrip : String → String
rstrip String.[] = String.[]
rstrip (String.◌∷◌ c s) =
    let rest = rstrip s in keep_char (is_space (code c)) rest (String.◌∷◌ c rest)

-- `s.strip()`
unfoldable pub strip : String → String
strip s = rstrip (lstrip s)

-- `not s`
abbrev pub is_empty_text : String → Bool
is_empty_text String.[] = true
is_empty_text _ = false

-- `s + t`
abbrev pub concat : String → String → String
concat String.[] t = t
concat (String.◌∷◌ c s) t = String.◌∷◌ c (concat s t)
