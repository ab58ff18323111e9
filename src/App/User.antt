-- ===== src/App/User.antt =====
-- `User` and its database: BetweenUS/BetweenUS/Model/User.swift and
-- BetweenUS/BetweenUS/Manager/Firebase/FBUserDatabase.swift. Firebase is a parameter.
pub mod Saved
use Prim.Native.String.{String}
use text.Mathlib.Text.{◌==◌}
use between_us.Prelude.{◌≡◌, ◌≢◌, List, [], ◌∷◌, Bool, Option, none, some, if◌then◌else◌}
use between_us.App.Regex.{Text}

pub record User : Type 0 where
  pub id : Text
  pub email : Text
  pub name : Text
  pub nick_name : Text
  pub birthday : Text
  pub content : Option (List Text)

-- What a dictionary of the database holds: a text, an array of texts, `nil`, or anything else.
pub data Value : Type 0 where
  string : Text → Value
  strings : List Text → Value
  null : Value
  other : Value

abbrev pub Dictionary : Type 0
Dictionary = List (String × Value)

-- `snapshot.value as? [String: Any]`
pub data Snapshot : Type 0 where
  dictionary : Dictionary → Snapshot
  no_dictionary : Snapshot

unfoldable pub lookup : String → Dictionary → Value
lookup key [] = null
lookup key ((k, v) ∷ entries) = if k == key then v else lookup key entries

unfoldable pub without_nulls : Dictionary → Dictionary
without_nulls [] = []
without_nulls ((k, null) ∷ entries) = without_nulls entries
without_nulls ((k, v) ∷ entries) = (k, v) ∷ without_nulls entries

-- `ref.child(parent).child(key)`
pub record Reference : Type 0 where
  pub parent : String
  pub key : Text

-- The Realtime Database: `setValue` and the value that `observeSingleEvent` reads. What is written is
-- read again, where entries that are null do not exist, and its siblings stay.
pub record Database : Type 1 where
  pub Store : Type 0
  pub set_value : Reference → Dictionary → Store → Store
  pub value : Reference → Store → Snapshot
  pub value-set_value :
      (r : Reference) (entries : Dictionary) (s : Store)
      → without_nulls entries ≢ []
      → value r (set_value r entries s) ≡ dictionary (without_nulls entries)
  pub value-set_value_sibling :
      (r q : Reference) (entries : Dictionary) (s : Store)
      → r.parent ≡ q.parent
      → r.key ≢ q.key
      → value q (set_value r entries s) ≡ value q s

abbrev pub users_child : Text → Reference
users_child id = record { parent = "users"; key = id }

abbrev pub saved_entries : User → Dictionary
saved_entries user =
    ("id", string user.id)
    ∷ ("email", string user.email)
    ∷ ("name", string user.name)
    ∷ ("nickName", string user.nick_name)
    ∷ ("birthday", string user.birthday)
    ∷ ("connect", null)
    ∷ []

-- What the synthesised `init(from:)` of `User` makes of an entry: a text that must be there, and an
-- array that need not be.
unfoldable pub decode_text : Value → Option Text
decode_text (string t) = some t
decode_text v = none

unfoldable pub decode_texts : Value → Option (Option (List Text))
decode_texts null = some none
decode_texts (strings ts) = some (some ts)
decode_texts v = none

infixl 5 ◌>>=◌
abbrev ◌>>=◌ : {A B : Type 0} → Option A → (A → Option B) → Option B
none >>= f = none
some a >>= f = f a

-- `JSONDecoder().decode(User.self, from:)`
unfoldable pub decode_user : Dictionary → Option User
unfolding lookup decode_text decode_texts
decode_user entries = do
  id ← decode_text (lookup "id" entries)
  email ← decode_text (lookup "email" entries)
  name ← decode_text (lookup "name" entries)
  nick_name ← decode_text (lookup "nickName" entries)
  birthday ← decode_text (lookup "birthday" entries)
  content ← decode_texts (lookup "content" entries)
  some (record {
    id = id;
    email = email;
    name = name;
    nick_name = nick_name;
    birthday = birthday;
    content = content;
  })

-- The user that `loadUser` hands to its completion, if it calls it.
unfoldable pub loaded_user : Snapshot → Option User
unfolding decode_user
loaded_user (dictionary entries) = decode_user entries
loaded_user no_dictionary = none

module _ (db : Database) where
  open db use {Store, set_value}

  unfoldable pub save_new_user : User → Store → Store
  save_new_user user = set_value (users_child user.id) (saved_entries user)
