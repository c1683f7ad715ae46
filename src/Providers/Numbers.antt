-- ===== src/Providers/Numbers.antt =====
-- services/payment_providers.py: what `normalize_kenyan_phone` accepts.
use text.Mathlib.TextLemmas.{nil-append, cons-append}
use mikrotik.Prelude.{
  suc, not, drop_text, String, ◌≡◌, ◌⊎◌, refl, Bool, true, false, ◌&&◌, ◌||◌, ◌==◌, inl, inr, join,
  text_length, keep_digits, code_is, arith, if◌then◌else◌, Bool-cases,
}
use mikrotik.World.{Result, ok, err, http}
use mikrotik.Providers.{normalize_kenyan_phone, mask_phone}
use mikrotik.Providers.Phone.{with_country, is_kenyan_mobile}

pub local_number : normalize_kenyan_phone "0712 345-678" ≡ ok "254712345678"
unfolding normalize_kenyan_phone
local_number = refl

masked : mask_phone "254712345678" ≡ "254****678"
unfolding mask_phone
masked = refl

-- A national number: nine digits, of which the first is a 1 or a 7.
abbrev pub is_national : String → Bool
is_national n = text_length n == 9 && (code_is 0 b'1' n || code_is 0 b'7' n)

with_prefix : (n : String) → join "254" n ≡ String.◌∷◌ "2" (String.◌∷◌ "5" (String.◌∷◌ "4" n))
with_prefix n = rw cons-append (rw cons-append (rw cons-append (rw nil-append refl)))

with_zero : (n : String) → join "0" n ≡ String.◌∷◌ "0" n
with_zero n = rw cons-append (rw nil-append refl)

international :
    (n : String)
    → is_kenyan_mobile (String.◌∷◌ "2" (String.◌∷◌ "5" (String.◌∷◌ "4" n))) ≡ is_national n
unfolding is_kenyan_mobile
international n = ground arith

abbrev refusal : Result String
refusal = err (http 422 "Enter a valid Kenyan phone number")

swapped :
    (b : Bool) (phone : String)
    → (if not b then refusal else ok phone) ≡ (if b then ok phone else refusal)
swapped true phone = refl
swapped false phone = refl

checked :
    (n : String)
    → (if not (is_kenyan_mobile (String.◌∷◌ "2" (String.◌∷◌ "5" (String.◌∷◌ "4" n))))
        then refusal
        else ok (String.◌∷◌ "2" (String.◌∷◌ "5" (String.◌∷◌ "4" n))))
      ≡ (if is_national n then ok (String.◌∷◌ "2" (String.◌∷◌ "5" (String.◌∷◌ "4" n))) else refusal)
checked n = rw (international n) (swapped (is_national n) _)

local :
    (n : String)
    → (if not (is_kenyan_mobile (with_country (String.◌∷◌ "0" n)))
        then err (http 422 "Enter a valid Kenyan phone number")
        else ok (with_country (String.◌∷◌ "0" n)))
      ≡ (if is_national n
          then ok (join "254" n)
          else err (http 422 "Enter a valid Kenyan phone number"))
unfolding with_country drop_text is_kenyan_mobile
local n = elim (Bool-cases (text_length n == 9)) [
  | inl nine ↦
      let ten : (suc (text_length n) == 10) ≡ true = ground (arith, nine) in
      rw (ten, with_prefix n) (checked n)
  | inr other ↦
      let longer : (suc (text_length n) == 10) ≡ false = ground (arith, other) in
      rw (longer, other) refl
]

-- Both spellings of a number are taken, and taken alike: a text whose digits are 254 or a 0 and then
-- `n` is normalized to 254 and `n` if `n` is a national number, nine digits from a 1 or a 7, and
-- answered by 422 if it is not.
pub normalize_kenyan_phone-spellings :
    (value n prefix : String)
    → (prefix ≡ "254") ⊎ (prefix ≡ "0")
    → keep_digits value ≡ join prefix n
    → normalize_kenyan_phone value ≡ (
        if is_national n
        then ok (join "254" n)
        else err (http 422 "Enter a valid Kenyan phone number"))
unfolding normalize_kenyan_phone
normalize_kenyan_phone-spellings value n prefix (inl abroad) digits =
    rw (digits, abroad, with_prefix n) (checked n)
normalize_kenyan_phone-spellings value n prefix (inr home) digits =
    rw (digits, home, with_zero n) (local n)
