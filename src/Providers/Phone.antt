-- ===== src/Providers/Phone.antt =====
-- services/payment_providers.py: `normalize_kenyan_phone`; security.py: `mask_phone`.
use mikrotik.Prelude.{
  ◌-◌, String, Bool, not, ◌&&◌, ◌||◌, join, text_length, take_text, drop_text, keep_digits, code_is,
  ◌==◌, leb, if◌then◌else◌,
}
use mikrotik.World.{Result, ok, err, http}

unfoldable pub with_country : String → String
unfolding drop_text
with_country cleaned =
    if code_is 0 b'0' cleaned && text_length cleaned == 10
    then join "254" (drop_text 1 cleaned)
    else if code_is 0 b'7' cleaned && text_length cleaned == 9
    then join "254" cleaned
    else cleaned

-- a number of a Kenyan mobile line, as the providers take it
unfoldable pub is_kenyan_mobile : String → Bool
is_kenyan_mobile s =
    code_is 0 b'2' s
    && code_is 1 b'5' s
    && code_is 2 b'4' s
    && text_length s == 12
    && (code_is 3 b'1' s || code_is 3 b'7' s)

unfoldable pub normalize_kenyan_phone : String → Result String
unfolding with_country is_kenyan_mobile keep_digits
normalize_kenyan_phone value =
    let cleaned = with_country (keep_digits value) in
    if not (is_kenyan_mobile cleaned)
    then err (http 422 "Enter a valid Kenyan phone number")
    else ok cleaned

-- `f"{phone[:3]}****{phone[-3:]}"`
unfoldable pub mask_phone : String → String
unfolding take_text drop_text
mask_phone phone =
    if leb 8 (text_length phone)
    then join (take_text 3 phone) (join "****" (drop_text (text_length phone - 3) phone))
    else "***"
