-- ===== src/App/Validation.antt =====
-- `validateEmail` and `validatePassword` of
-- BetweenUS/BetweenUS/ViewController/Rogin/loginViewModel.swift.
pub mod Laws
pub mod Email
use between_us.Prelude.{ℕ, Bool, List, [], ◌∷◌}
use mathlib.Core.Option.{none, some}
use between_us.App.Regex.{Text, Item, class, dot, Regex, one, repeated, seq, ahead, matches}

-- The classes of the pattern of an email, in its order: [A-Z0-9a-z._%+-], @, [A-Za-z0-9.-], \. and
-- [A-Za-z].
abbrev pub local_char : Item
local_char = class (
    (b'A', b'Z')
    ∷ (b'0', b'9')
    ∷ (b'a', b'z')
    ∷ (b'.', b'.')
    ∷ (b'_', b'_')
    ∷ (b'%', b'%')
    ∷ (b'+', b'+')
    ∷ (b'-', b'-')
    ∷ [])

abbrev pub at_sign : Item
at_sign = class ((b'@', b'@') ∷ [])

abbrev pub domain_char : Item
domain_char = class ((b'A', b'Z') ∷ (b'a', b'z') ∷ (b'0', b'9') ∷ (b'.', b'.') ∷ (b'-', b'-') ∷ [])

abbrev pub full_stop : Item
full_stop = class ((b'.', b'.') ∷ [])

abbrev pub letter : Item
letter = class ((b'A', b'Z') ∷ (b'a', b'z') ∷ [])

abbrev pub digit : Item
digit = class ((b'0', b'9') ∷ [])

abbrev pub email_regex : Regex
email_regex = seq (repeated local_char 1 none) (
    seq (one at_sign)
      (seq (repeated domain_char 1 none) (seq (one full_stop) (repeated letter 2 (some 64)))))

-- `^` at the start of a pattern that has to match the whole text says nothing more.
abbrev pub password_regex : Regex
password_regex =
    seq (ahead (seq (repeated dot 0 none) (one letter)))
      (seq (ahead (seq (repeated dot 0 none) (one digit))) (repeated dot 7 (some 50)))

unfoldable pub validate_email : Text → Bool
validate_email email = matches email_regex email

unfoldable pub validate_password : Text → Bool
validate_password password = matches password_regex password
