-- ===== src/Nostr.antt =====
-- The types of the package go-nostr, as far as the program reads their fields, and the functions
-- of that package which the program calls. The package is not part of the repository, so the
-- functions are the fields of a record that the definitions take as a parameter.
use demedia_nostr.Prelude.{ℕ, String, Bool, Option, List, ℤ, ◌≡◌, refl, ◌⊎◌, inl, inr}
use demedia_nostr.Prelude.Map.{Map}

-- nostr.Tag, a slice of strings
abbrev pub Tag : Type 0
Tag = List String

-- nostr.Event. A time is the number that its method Unix returns; the times of events and of filters
-- come from JSON in whole seconds.
pub record Event : Type 0 where
  pub id : String
  pub pub_key : String
  pub created_at : ℤ
  pub kind : ℤ
  pub tags : List Tag
  pub content : String
  pub sig : String

-- nostr.Filter. A nil slice and an empty one differ in the program, so a slice is an option.
pub record Filter : Type 0 where
  pub ids : Option (List String)
  pub kinds : Option (List ℤ)
  pub authors : Option (List String)
  pub tags : Map String (List String)
  pub since : Option ℤ
  pub until : Option ℤ
  pub limit : ℤ

-- A Go error: storage.ErrDupEvent, which the program compares with, or any other by its text.
pub data Error : Type 0 where
  dup_event : Error
  message : String → Error

-- err.Error()
abbrev pub error_text : Error → String
error_text dup_event = "duplicate: event already exists"
error_text (message s) = s

-- A pair (value, error) of which the program uses the value only where the error is nil.
pub data Result {ℓ} (A : Type ℓ) : Type ℓ where
  ok : A → Result A
  err : Error → Result A

pub record Nostr : Type 0 where
  pub serialize : Event → String
  pub check_signature : Event → Result Bool
  pub filters_match : List Filter → Event → Bool
  pub filter_equal : Filter → Filter → Bool
  pub append_unique : List Tag → Tag → List Tag
  pub validate_auth_event : Event → String → String → Option String
  pub tags_get_first_value : List Tag → String → Option String
  pub kind_set_metadata : ℤ
  pub kind_recommend_server : ℤ
  pub kind_contact_list : ℤ

-- The JSON arrays that the server writes to a websocket.
pub data Frame : Type 0 where
  auth : String → Frame
  event : String → Event → Frame
  eose : String → Frame
  accepted : String → Bool → String → Frame
  notice : String → Frame

-- One call of WriteJSON: the connection, by the address of its WebSocket, and the array.
pub record Write : Type 0 where
  pub ws : ℕ
  pub frame : Frame

pub Result-cases {ℓ} :
    {A : Type ℓ} (r : Result A) → ((a : A) × (r ≡ ok a)) ⊎ ((e : Error) × (r ≡ err e))
Result-cases (ok a) = inl (a, refl)
Result-cases (err e) = inr (e, refl)
