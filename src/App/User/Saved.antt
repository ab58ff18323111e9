-- ===== src/App/User/Saved.antt =====
-- What is saved of a user is loaded again.
use between_us.Prelude.{◌≡◌, refl, ◌≢◌, [], none, some}
use between_us.App.Regex.{Text}
use between_us.App.User.{
  User, Database, users_child, saved_entries, without_nulls, decode_user, loaded_user,
  save_new_user,
}

-- The entries that the database keeps are those that `User` is decoded from.
decode_user-saved_entries :
    (user : User)
    → decode_user (without_nulls (saved_entries user)) ≡ some (record user { content = none })
unfolding decode_user without_nulls
decode_user-saved_entries user = refl

kept_entries : (user : User) → without_nulls (saved_entries user) ≢ []
unfolding without_nulls
kept_entries user = λ e. cc

module _ (db : Database) where
  open db use {Store, value, value-set_value, value-set_value_sibling}

  -- The user that `saveNewUser` wrote is the user that `loadUser` reads under its id, without its
  -- content, which is not saved.
  pub loaded_user-save_new_user :
      (user : User) (s : Store)
      → loaded_user (value (users_child user.id) (save_new_user db user s))
        ≡ some (record user { content = none })
  unfolding loaded_user save_new_user
  loaded_user-save_new_user user s =
      rw (value-set_value (users_child user.id) (saved_entries user) s (kept_entries user))
        (decode_user-saved_entries user)

  -- Saving another user does not change what is loaded.
  pub save_new_user_other :
      (user : User) (id : Text) (s : Store)
      → user.id ≢ id
      → value (users_child id) (save_new_user db user s) ≡ value (users_child id) s
  unfolding save_new_user
  save_new_user_other user id s h =
      value-set_value_sibling (users_child user.id) (users_child id) (saved_entries user) s refl h
