-- ===== src/Providers/Webhooks.antt =====
-- services/payment_providers.py: signatures and values of the providers' callbacks.
use mikrotik.Prelude.{
  ℕ, ◌*◌, ◌^◌, String, Bool, true, false, ◌&&◌, ◌||◌, Option, none, some, str_eq, truthy?, ◌==◌,
  if◌then◌else◌,
}

-- A `Decimal`: its sign, its digits as a number, and how many of them stand behind the point.
pub record Decimal : Type 0 where
  pub negative : Bool
  pub digits : ℕ
  pub places : ℕ

same_sign : Bool → Bool → Bool
same_sign true b = b
same_sign false true = false
same_sign false false = true

-- `a == b` of two decimals; the two zeros are equal
unfoldable pub same_decimal : Decimal → Decimal → Bool
unfolding same_sign
same_decimal a b =
    a.digits * 10 ^ b.places == b.digits * 10 ^ a.places
    && (a.digits == 0 || same_sign a.negative b.negative)

-- `Decimal(row.amount)` of a column with two decimals
abbrev pub of_cents : ℕ → Decimal
of_cents cents = record { negative = false; digits = cents; places = 2 }

-- `_decimal_or_none(value) == Decimal(row.amount)`, where the first is given
unfoldable pub amount_matches : Option Decimal → ℕ → Bool
unfolding same_decimal
amount_matches none cents = false
amount_matches (some d) cents = same_decimal d (of_cents cents)

-- What `mpesa_callback_values` reads from a payload; `amount` is behind `_decimal_or_none`.
pub record MpesaValues : Type 0 where
  pub provider_request_id : Option String
  pub result_code : String
  pub result_description : Option String
  pub amount : Option Decimal
  pub receipt : Option String
  pub phone : String

-- What `kopokopo_callback_values` reads; `status` is `str(...).lower()`.
pub record KopokopoValues : Type 0 where
  pub public_id : Option String
  pub status : String
  pub result_description : Option String
  pub amount : Option Decimal
  pub receipt : Option String
  pub phone : String

-- `expected` is the digest that the API key gives for the body.
unfoldable pub verify_kopokopo_signature : String → Option String → Bool
verify_kopokopo_signature expected none = false
verify_kopokopo_signature expected (some supplied) =
    if truthy? (some supplied) then str_eq expected supplied else false
