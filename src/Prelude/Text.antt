-- ===== src/Prelude/Text.antt =====
-- What the source does with texts: truth values, equality of optional texts, slices.
use Prim.Native.Nat.{ℕ, zero, suc, ◌+◌, ◌/◌, ◌%◌, ◌<◌}
use Prim.Native.Char.{code}
use Prim.Native.String.{String, ◌++◌ as text_append}
use mathlib.Core.Path.{◌≡◌, refl}
use mathlib.Core.Bool.{Bool, true, false, ◌&&◌}
use mathlib.Core.Option.{Option, none, some}
use mathlib.Core.List.{List, [], ◌∷◌}
use text.Mathlib.Text.{◌==◌ as str_eq}
use native.Mathlib.Omega.{arith}
use mathlib.Core.Logic.{inl, inr}
use mikrotik.Prelude.Tests.{Bool-cases, ltb, leb, ◌==◌, if◌then◌else◌}

-- `bool(s)`
abbrev pub truthy : String → Bool
truthy String.[] = false
truthy (String.◌∷◌ c s) = true

-- `bool(s)` of a text or `None`
abbrev pub truthy? : Option String → Bool
truthy? none = false
truthy? (some s) = truthy s

-- `s or default`
unfoldable pub or_text : Option String → String → String
or_text none d = d
or_text (some s) d = if truthy s then s else d

pub or_text-some : (s d : String) → truthy s ≡ true → or_text (some s) d ≡ s
unfolding or_text
or_text-some s d h = rw h refl

-- `a == b` where `a` may be `None`
abbrev pub opt_eq : Option String → String → Bool
opt_eq none b = false
opt_eq (some a) b = str_eq a b

-- `a == b` where both may be `None`
abbrev pub same_text : Option String → Option String → Bool
same_text none none = true
same_text none (some b) = false
same_text (some a) none = false
same_text (some a) (some b) = str_eq a b

-- `s[:n]`, by characters
unfoldable pub take_text : ℕ → String → String
take_text zero s = String.[]
take_text (suc n) String.[] = String.[]
take_text (suc n) (String.◌∷◌ c s) = String.◌∷◌ c (take_text n s)

-- `x in xs`
abbrev pub mem_text : String → List String → Bool
mem_text x [] = false
mem_text x (y ∷ ys) = if str_eq x y then true else mem_text x ys

-- `a + b` of two texts
abbrev pub join : String → String → String
join = text_append

-- The code points of a text.
abbrev pub codes : String → List ℕ
codes String.[] = []
codes (String.◌∷◌ c s) = code c ∷ codes s

abbrev pub same_codes : List ℕ → List ℕ → Bool
same_codes [] [] = true
same_codes (a ∷ as') (b ∷ bs) = (a == b) && same_codes as' bs
same_codes _ _ = false

abbrev pub lower_codes : List ℕ → List ℕ
lower_codes [] = []
lower_codes (c ∷ cs) = (if leb 65 c && leb c 90 then c + 32 else c) ∷ lower_codes cs

-- `s.lower() == t`, for texts in ASCII
unfoldable pub lower_eq : String → String → Bool
lower_eq s t = same_codes (lower_codes (codes s)) (codes t)

-- The decimal digit of a number below ten.
unfoldable pub digit : ℕ → String
digit n =
    if n == 0
    then "0"
    else if n == 1
    then "1"
    else if n == 2
    then "2"
    else if n == 3
    then "3"
    else if n == 4
    then "4"
    else if n == 5
    then "5"
    else if n == 6
    then "6"
    else if n == 7
    then "7"
    else if n == 8
    then "8"
    else "9"

-- `fuel` digits at most
unfoldable pub show_from : ℕ → ℕ → String
unfolding digit
show_from zero n = ""
show_from (suc fuel) n =
    let rest = join (show_from fuel (n / 10)) (digit (n % 10)) in if ltb n 10 then digit n else rest

-- `str(n)`: a number has no more digits than its value, or one.
unfoldable pub show_number : ℕ → String
unfolding show_from
show_number n = show_from (suc n) n

-- Fuel above the number is enough: more of it writes the same digits.
pub show_from-enough : (more fuel n : ℕ) → n < more → n < fuel → show_from more n ≡ show_from fuel n
unfolding show_from
show_from-enough zero fuel n h k = ground arith
show_from-enough (suc more) zero n h k = ground arith
show_from-enough (suc more) (suc fuel) n h k = elim (Bool-cases (ltb n 10)) [
  | inl small ↦ rw small refl
  | inr large ↦ rw (large, show_from-enough more fuel (n / 10) (grind arith) (grind arith)) refl
]

-- `f"{n:02d}"`
unfoldable pub show_two : ℕ → String
unfolding show_number
show_two n = if ltb n 10 then join "0" (show_number n) else show_number n

-- `s.replace("-", "")`
unfoldable pub remove_dashes : String → String
remove_dashes String.[] = ""
remove_dashes (String.◌∷◌ c s) =
    let rest = remove_dashes s in if code c == b'-' then rest else String.◌∷◌ c rest

-- `len(s)`, in characters
abbrev pub text_length : String → ℕ
text_length String.[] = 0
text_length (String.◌∷◌ c s) = suc (text_length s)

-- `s[n:]`
unfoldable pub drop_text : ℕ → String → String
drop_text zero s = s
drop_text (suc n) String.[] = ""
drop_text (suc n) (String.◌∷◌ c s) = drop_text n s

-- `ch.isdigit()`, in ASCII
abbrev pub is_digit : ℕ → Bool
is_digit c = leb b'0' c && leb c b'9'

-- `"".join(ch for ch in s if ch.isdigit())`
unfoldable pub keep_digits : String → String
keep_digits String.[] = ""
keep_digits (String.◌∷◌ c s) =
    let rest = keep_digits s in if is_digit (code c) then String.◌∷◌ c rest else rest

-- `s[i:i + 1]`, as a code point
abbrev pub code_at : ℕ → String → Option ℕ
code_at i String.[] = none
code_at zero (String.◌∷◌ c s) = some (code c)
code_at (suc i) (String.◌∷◌ c s) = code_at i s

abbrev pub code_is : ℕ → ℕ → String → Bool
code_is i c s = elim (code_at i s) [ none ↦ false | some d ↦ d == c ]

-- the last part between slashes that is not empty
last_part : String → String → String → String
last_part found current String.[] = if truthy current then current else found
last_part found current (String.◌∷◌ c s) =
    let found' = if truthy current then current else found in
    let next = last_part found' "" s in
    let more = last_part found (join current (String.◌∷◌ c String.[])) s in
    if code c == b'/' then next else more

-- `path.rstrip("/").split("/")[-1]`
unfoldable pub last_segment : String → String
unfolding last_part
last_segment path = last_part "" "" path

-- `s.split("-")[0]`
unfoldable pub before_dash : String → String
before_dash String.[] = ""
before_dash (String.◌∷◌ c s) =
    let rest = before_dash s in if code c == b'-' then "" else String.◌∷◌ c rest

-- `s.startswith(prefix)`
abbrev pub starts_with : String → String → Bool
starts_with String.[] s = true
starts_with (String.◌∷◌ c prefix) String.[] = false
starts_with (String.◌∷◌ c prefix) (String.◌∷◌ d s) = (code c == code d) && starts_with prefix s

-- `part in s`
abbrev pub contains : String → String → Bool
contains part String.[] = starts_with part ""
contains part (String.◌∷◌ c s) =
    let rest = contains part s in if starts_with part (String.◌∷◌ c s) then true else rest
