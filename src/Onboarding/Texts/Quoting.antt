-- ===== src/Onboarding/Texts/Quoting.antt =====
-- services/onboarding_service.py: what RouterOS reads of a quoted text.
use Prim.Native.Char.{code, Char}
use mikrotik.Prelude.{String, ◌≡◌, false, Option, none, some, ◌==◌}

-- one more character of the text that was read
abbrev pub with_char : Char → Option (String × String) → Option (String × String)
with_char c none = none
with_char c (some (read, rest)) = some (String.◌∷◌ c read, rest)

-- What RouterOS's manual says of a quoted text, for a function that reads behind its opening quote and
-- returns the text and what follows its closing quote: a quote ends the text, a backslash makes a
-- backslash, a quote or a dollar an ordinary character, and what is none of these stands for itself.
-- The other escapes, such as the one for a new line, are left open.
pub record IsReader (read : String → Option (String × String)) : Type 0 where
  pub closing : (s : String) → read (String.◌∷◌ "\"" s) ≡ some ("", s)
  pub backslash :
      (s : String) → read (String.◌∷◌ "\\" (String.◌∷◌ "\\" s)) ≡ with_char "\\" (read s)
  pub quote : (s : String) → read (String.◌∷◌ "\\" (String.◌∷◌ "\"" s)) ≡ with_char "\"" (read s)
  pub dollar : (s : String) → read (String.◌∷◌ "\\" (String.◌∷◌ "$" s)) ≡ with_char "$" (read s)
  pub plain :
      (c : Char) (s : String)
      → (code c == b'\\') ≡ false
      → (code c == b'"') ≡ false
      → (code c == b'$') ≡ false
      → read (String.◌∷◌ c s) ≡ with_char c (read s)
