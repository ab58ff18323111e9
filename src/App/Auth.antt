-- ===== src/App/Auth.antt =====
-- `AuthManager`: BetweenUS/BetweenUS/Manager/AuthManager.swift. A call of Firebase is put down, and its
-- answer is a later step that runs the closure of that call.
pub mod Account
pub mod Valid
use Prim.Native.String.{String}
use between_us.Prelude.{
  ℕ, Bool, true, false, List, [], ◌∷◌, ◌++◌, Option, none, some, ◌==◌, if◌then◌else◌,
}
use between_us.App.Regex.{Text}
use between_us.App.User.{User, Snapshot, Database, loaded_user, save_new_user}

-- `AuthError.error(type:message:)`
pub record AuthError : Type 0 where
  pub kind : String
  pub message : String

-- `Result<Bool, AuthError>`; the flag of a success is always true.
pub data AuthResult : Type 0 where
  success : AuthResult
  failure : AuthError → AuthResult

-- What the program asks of Firebase.
pub data Call : Type 0 where
  sign_out : Call
  create_user : Text → Text → Call
  sign_in_user : Text → Text → Call
  observe_user : Text → Call

-- The arguments of a closure of Firebase: the id of the user of `result`, and the code of `error`.
pub record Reply : Type 0 where
  pub result : Option Text
  pub error : Option ℕ

unfoldable pub branch_error : ℕ → Option AuthError
branch_error code =
    if code == 17007
    then some (record { kind = "signUp"; message = "이미 있는 이메일입니다" })
    else if code == 17011
    then some (record { kind = "signIn"; message = "존재하지 않는 이메일입니다" })
    else if code == 17009
    then some (record { kind = "signIn"; message = "비밀번호가 일치하지 않습니다" })
    else none

-- `Auth.auth().currentUser == nil`, of the id of the current user.
unfoldable pub is_login : Option Text → Bool
is_login none = false
is_login (some id) = true

-- The start of both closures: `if let error = error { ... }`. The value is what the completion is called
-- with, or nothing where the closure returns.
unfoldable pub report_error : Option ℕ → Option (List AuthResult)
unfolding branch_error
report_error none = some []
report_error (some code) = elim (branch_error code) [ none ↦ none | some e ↦ some (failure e ∷ []) ]

module _ (db : Database) where
  open db use {Store}

  -- What the manager works on: the database, `UserInformation.shared.user` and the calls made so far.
  pub record World : Type 0 where
    pub store : Store
    pub user : Option User
    pub calls : List Call

  abbrev pub request : Call → World → World
  request c w = record w { calls = w.calls ++ (c ∷ []) }

  -- `signOut` may throw; that is only printed.
  unfoldable pub logout : World → World
  logout w = request sign_out w

  unfoldable pub sign_in : Text → Text → World → World
  sign_in email password w = request (sign_in_user email password) w

  unfoldable pub sign_up : Text → Text → World → World
  unfolding logout
  sign_up email password w = request (create_user email password) (logout w)

  -- The closure of `signIn`: the world behind it and what the completion was called with, in order.
  unfoldable pub sign_in_reply : Reply → World → World × List AuthResult
  unfolding report_error
  sign_in_reply reply w = elim (report_error reply.error) [
    | none ↦ (w, [])
    | some told ↦ elim reply.result [
      | none ↦ (w, told)
      | some id ↦ (request (observe_user id) w, told)
    ]
  ]

  -- The closure that `signIn` hands to `loadUser`.
  unfoldable pub user_loaded : Snapshot → World → World × List AuthResult
  user_loaded snapshot w = elim (loaded_user snapshot) [
    | none ↦ (w, [])
    | some user ↦ (record w { user = some user }, success ∷ [])
  ]

  -- The closure of `signUp`, which has taken the user along.
  unfoldable pub sign_up_reply : User → Reply → World → World × List AuthResult
  unfolding report_error
  sign_up_reply user reply w = elim (report_error reply.error) [
    | none ↦ (w, [])
    | some told ↦ elim reply.result [
      | none ↦ (w, told)
      | some id ↦ (
        record w { store = save_new_user db (record user { id = id }) w.store },
        told ++ (success ∷ []),
      )
    ]
  ]
