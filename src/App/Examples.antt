-- ===== src/App/Examples.antt =====
-- The theorems about the application at concrete inputs, over a small database.
mod Screens
mod Whole
use between_us.Prelude.{
  ◌≡◌, ◌≢◌, ◌↔◌, ◌⊎◌, inl, inr, refl, sym, ap, ◌∙◌, Bool, true, false, ◌&&◌, ◌||◌, not, ℕ, zero,
  ◌≤◌, List, [], ◌∷◌, ◌++◌, Option, none, some, length, All, if◌then◌else◌, ◌==◌, arith, if_intro,
}
use between_us.App.Regex.{Text, matches, accepts}
use between_us.App.Validation.{validate_email, validate_password}
use between_us.App.Validation.Laws.{IsPassword, validate_password_iff}
use between_us.App.Validation.Email.{IsEmail, validate_email_iff}
use between_us.App.User.{
  User, Snapshot, dictionary, no_dictionary, Dictionary, without_nulls, Reference, Database,
  users_child, loaded_user, save_new_user,
}
use between_us.App.User.Saved.{loaded_user-save_new_user}
use between_us.App.Auth.{
  AuthResult, success, Call, create_user, sign_in_user, observe_user, Reply, World, request,
  sign_in_reply, user_loaded, sign_up_reply,
}
use between_us.App.Auth.Account.{
  save_all, signed_up, user_loaded-sign_up_reply, completions_at_most_once,
}

same_text : Text → Text → Bool
same_text [] [] = true
same_text (a ∷ s) (b ∷ t) = a == b && same_text s t
same_text s t = false

same_text_refl : (s : Text) → same_text s s ≡ true
unfolding same_text
same_text_refl [] = refl
same_text_refl (a ∷ s) = ground (arith, same_text_refl s)

same_text_eq : (s t : Text) → same_text s t ≡ true → s ≡ t
unfolding same_text
same_text_eq [] [] h = refl
same_text_eq (a ∷ s) (b ∷ t) h =
    let rest : same_text s t ≡ true = ground arith in
    let tails = same_text_eq s t rest in ground (arith, tails)
same_text_eq [] (b ∷ t) h = cc
same_text_eq (a ∷ s) [] h = cc

saved : Dictionary → Snapshot
saved [] = no_dictionary
saved (e ∷ es) = dictionary (e ∷ es)

saved_some : (d : Dictionary) → d ≢ [] → saved d ≡ dictionary d
unfolding saved
saved_some [] h = elim (h refl) [ ]
saved_some (e ∷ es) h = refl

put : Text → Snapshot → (Text → Snapshot) → Text → Snapshot
unfolding same_text
put key snapshot s q = if same_text key q then snapshot else s q

put_same :
    (key : Text) (snapshot : Snapshot) (s : Text → Snapshot) → put key snapshot s key ≡ snapshot
unfolding put
put_same key snapshot s = rw (same_text_refl key) refl

put_other :
    (key q : Text) (snapshot : Snapshot) (s : Text → Snapshot)
    → key ≢ q
    → put key snapshot s q ≡ s q
unfolding put
put_other key q snapshot s h =
    if_intro (λ x. x ≡ s q) (same_text key q) (λ same. elim (h (same_text_eq key q same)) [ ])
      λ other. refl

-- A database of one level: the entries by key.
abbrev example_db : Database
example_db = record {
  Store = Text → Snapshot;
  set_value = λ r entries s. put r.key (saved (without_nulls entries)) s;
  value = λ r s. s r.key;
  value-set_value = λ r entries s h. put_same r.key _ s ∙ saved_some (without_nulls entries) h;
  value-set_value_sibling = λ r q entries s p h. put_other r.key q.key _ s h;
}

abbrev empty_world : World example_db
empty_world = record { store = λ q. no_dictionary; user = none; calls = [] }

-- `a@b.cc`, and two passwords of seven characters.
abbrev email : Text
email = 97 ∷ 64 ∷ 98 ∷ 46 ∷ 99 ∷ 99 ∷ []

abbrev password : Text
password = 97 ∷ 98 ∷ 99 ∷ 100 ∷ 101 ∷ 102 ∷ 49 ∷ []

abbrev changed_password : Text
changed_password = 97 ∷ 98 ∷ 99 ∷ 100 ∷ 101 ∷ 102 ∷ 50 ∷ []

abbrev kim : User
kim = record {
  id = [];
  email = email;
  name = 75 ∷ [];
  nick_name = 107 ∷ [];
  birthday = 50 ∷ [];
  content = some [];
}

abbrev other_user : User
other_user = record kim { id = 50 ∷ [] }

abbrev kim_id : Text
kim_id = 49 ∷ []

-- The day on which the second screen is opened.
abbrev day : Text
day = 51 ∷ []

apart : All (λ (u : User). u.id ≢ kim_id) (other_user ∷ [])
apart = (λ h. ground arith, tt)

email-valid : validate_email email ≡ true
unfolding validate_email matches accepts
email-valid = refl

password-valid : validate_password password ≡ true
unfolding validate_password matches accepts
password-valid = refl

changed_password-valid : validate_password changed_password ≡ true
unfolding validate_password matches accepts
changed_password-valid = refl

passwords-differ : same_text changed_password password ≡ false
unfolding same_text
passwords-differ = refl

validate_email_iff_example : (validate_email email ≡ true) ↔ IsEmail email
validate_email_iff_example = validate_email_iff email

validate_password_iff_example : (validate_password password ≡ true) ↔ IsPassword password
validate_password_iff_example = validate_password_iff password

loaded_user-save_new_user_example :
    loaded_user (
      example_db.value
        (users_child kim_id)
        (save_new_user example_db (record kim { id = kim_id }) empty_world.store))
    ≡ some (record kim { id = kim_id; content = none })
loaded_user-save_new_user_example =
    loaded_user-save_new_user example_db (record kim { id = kim_id }) empty_world.store

abbrev signed_up_world : World example_db
signed_up_world = record empty_world {
  store = save_all example_db (other_user ∷ []) (signed_up example_db kim kim_id empty_world).store;
}

user_loaded-sign_up_reply_example :
    let (v', told) =
      sign_in_reply example_db (record { result = some kim_id; error = none }) signed_up_world in
    (v' ≡ request example_db (observe_user kim_id) signed_up_world)
    × (told ≡ [])
    × (user_loaded example_db (example_db.value (users_child kim_id) v'.store) v'
        ≡ (record v' { user = some (record kim { id = kim_id; content = none }) }, success ∷ []))
user_loaded-sign_up_reply_example =
    user_loaded-sign_up_reply example_db kim kim_id empty_world signed_up_world (other_user ∷ [])
      apart refl

abbrev refused : Reply
refused = record { result = none; error = some 17009 }

completions_at_most_once_example :
    (length (sign_in_reply example_db refused empty_world).1 ≤ 1)
    × (length (sign_up_reply example_db kim refused empty_world).1 ≤ 1)
completions_at_most_once_example =
    completions_at_most_once example_db kim refused empty_world (inl refl)
