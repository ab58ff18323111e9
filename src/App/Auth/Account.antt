-- ===== src/App/Auth/Account.antt =====
-- An account from sign-up to sign-in, and how often a completion is called.
use between_us.Prelude.{
  ◌≤◌, ◌≡◌, ◌≢◌, refl, ap, ◌∙◌, ◌⊎◌, List, [], ◌∷◌, none, some, length, All, arith,
}
use between_us.App.Regex.{Text}
use between_us.App.User.{User, Snapshot, Database, users_child, loaded_user, save_new_user}
use between_us.App.User.Saved.{loaded_user-save_new_user, save_new_user_other}
use between_us.App.Auth.{
  success, Reply, World, request, observe_user, sign_in_reply, user_loaded, sign_up_reply,
}

-- Firebase gives a closure a result or an error, and not both.
abbrev pub IsExclusive : Reply → Type 0
IsExclusive reply = (reply.result ≡ none) ⊎ (reply.error ≡ none)

module _ (db : Database) where
  open db use {Store, value}

  -- Saves of other users, in order.
  unfoldable pub save_all : List User → Store → Store
  save_all [] s = s
  save_all (user ∷ users) s = save_all users (save_new_user db user s)

  save_all_other :
      (users : List User) (id : Text) (s : Store)
      → All (λ u. u.id ≢ id) users
      → value (users_child id) (save_all users s) ≡ value (users_child id) s
  unfolding save_all
  save_all_other [] id s h = refl
  save_all_other (user ∷ users) id s h =
      save_all_other users id (save_new_user db user s) h.1 ∙ save_new_user_other db user id s h.0

  user_loaded-some :
      (snapshot : Snapshot) (user : User) (w : World db)
      → loaded_user snapshot ≡ some user
      → user_loaded db snapshot w ≡ (record w { user = some user }, success ∷ [])
  unfolding user_loaded
  user_loaded-some snapshot user w h = ground (arith, h)

  -- The world behind a sign-up that Firebase has accepted under `id`.
  abbrev pub signed_up : User → Text → World db → World db
  signed_up user id w = (sign_up_reply db user (record { result = some id; error = none }) w).0

  pub loaded_user-signed_up :
      (user : User) (id : Text) (w v : World db) (others : List User)
      → All (λ u. u.id ≢ id) others
      → v.store ≡ save_all others (signed_up user id w).store
      → loaded_user (value (users_child id) v.store)
        ≡ some (record user { id = id; content = none })
  unfolding sign_up_reply
  loaded_user-signed_up user id w v others apart same =
      let kept =
        ap (value (users_child id)) same
        ∙ save_all_other others id (signed_up user id w).store apart in
      ap loaded_user kept ∙ loaded_user-save_new_user db (record user { id = id }) w.store

  -- After a sign-up that Firebase accepts under an id, and whatever other users are saved then, a sign-in
  -- under that id asks for the entry of the user, loads from it what was entered at sign-up with that
  -- id and without content, and reports one success.
  pub user_loaded-sign_up_reply :
      (user : User) (id : Text) (w v : World db) (others : List User)
      → All (λ u. u.id ≢ id) others
      → v.store ≡ save_all others (signed_up user id w).store
      → let (v', told) = sign_in_reply db (record { result = some id; error = none }) v in
        (v' ≡ request db (observe_user id) v)
        × (told ≡ [])
        × (user_loaded db (value (users_child id) v'.store) v'
            ≡ (record v' { user = some (record user { id = id; content = none }) }, success ∷ []))
  unfolding sign_in_reply
  user_loaded-sign_up_reply user id w v others apart same =
      let saved = loaded_user-signed_up user id w v others apart same in
      (refl, refl, user_loaded-some _ _ (request db (observe_user id) v) saved)

  -- No closure of Firebase calls the completion twice, if it has a result or an error only.
  pub completions_at_most_once :
      (user : User) (reply : Reply) (w : World db)
      → IsExclusive reply
      → (length (sign_in_reply db reply w).1 ≤ 1) × (length (sign_up_reply db user reply w).1 ≤ 1)
  unfolding sign_in_reply sign_up_reply
  completions_at_most_once user reply w h = ground arith
