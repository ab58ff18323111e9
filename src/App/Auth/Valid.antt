-- ===== src/App/Auth/Valid.antt =====
-- What the requests to Firebase, of whichever screen, have to be.
use between_us.Prelude.{◌≡◌, true}
use between_us.App.Validation.{validate_email, validate_password}
use between_us.App.Auth.{Call, create_user, sign_in_user}

-- A sign-up and a sign-in that are asked of Firebase have a valid email and a valid password.
abbrev pub IsValidCall : Call → Type 0
IsValidCall (create_user email password) =
    (validate_email email ≡ true) × (validate_password password ≡ true)
IsValidCall (sign_in_user email password) =
    (validate_email email ≡ true) × (validate_password password ≡ true)
IsValidCall c = Unit {0}
