-- ===== src/App/Login.antt =====
-- `loginViewModel` of BetweenUS/BetweenUS/ViewController/Rogin/loginViewModel.swift, and what the
-- screens of the folder share. A publisher of Combine is followed to its one subscriber.
use between_us.Prelude.{Bool, true, false, [], Option, none, some, ◌&&◌}
use between_us.App.Regex.{Text}

pub record LoginViewModel : Type 0 where
  pub email : Text
  pub password : Text
  pub check_password : Text
  pub email_valid : Bool
  pub password_valid : Bool
  pub check_password_valid : Bool

-- `@Published` texts and `CurrentValueSubject`s start empty and false.
abbrev pub new_login : LoginViewModel
new_login = record {
  email = [];
  password = [];
  check_password = [];
  email_valid = false;
  password_valid = false;
  check_password_valid = false;
}

-- The text of a label below a field: blank, or the label's own message.
pub data LabelText : Type 0 where
  blank : LabelText
  message : LabelText

-- `isValid ? " " : ...`
abbrev pub label_text : Bool → LabelText
label_text true = blank
label_text false = message

-- `combineLatest` of two publishers and the `map` behind it: it emits once each has sent a value.
unfoldable pub both_latest : Option Bool → Option Bool → Option Bool
both_latest (some a) (some b) = some (a && b)
both_latest a b = none

unfoldable pub all_latest : Option Bool → Option Bool → Option Bool → Option Bool
all_latest (some a) (some b) (some c) = some (a && b && c)
all_latest a b c = none
