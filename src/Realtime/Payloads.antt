-- ===== src/Realtime/Payloads.antt =====
-- What internals/routes/websocket.go reads of the payload that a client sends.
use gotel_reserves.Base.{
  ℕ, String, Bool, false, not, ◌&&◌, Option, none, some, ◌==◌, string_eq, if◌then◌else◌,
}
use gotel_reserves.Conversations.Messages.{Message}

-- A value of a decoded JSON object. `whole` is an integer and `other_number` another number, by its
-- integer part; a negative one, which is no number of a row, counts as 0.
pub data Json : Type 0 where
  null nested : Json
  boolean : Bool → Json
  whole other_number : ℕ → Json
  text : String → Json

-- The payload, if it is an object: its keys, spelled as in the struct tags. For the fields of a struct
-- encoding/json takes other spellings with regard to case too; they are left out.
abbrev pub Fields : Type 0
Fields = String → Option Json

-- What is read of a payload, or the complaint that goes to the client.
pub data Checked (A : Type 0) : Type 0 where
  accepted : A → Checked A
  refused : String → Checked A

infixl 5 ◌>>=◌ ◌>>◌
unfoldable pub ◌>>=◌ : {A B : Type 0} → Checked A → (A → Checked B) → Checked B
accepted a >>= f = f a
refused message >>= f = refused message

abbrev pub ◌>>◌ : {A B : Type 0} → Checked A → Checked B → Checked B
m >> k = m >>= λ _. k

abbrev pub number_in : String → Option Json → Checked ℕ
number_in message (some (whole n)) = accepted n
number_in message (some (other_number n)) = accepted n
number_in message _ = refused message

unfoldable pub extract_int64 : Fields → String → String → Checked ℕ
extract_int64 fields key message = number_in message (fields key)

abbrev pub text_in : String → String → Option Json → Checked String
text_in missing wrong none = refused missing
text_in missing wrong (some (text s)) = accepted s
text_in missing wrong _ = refused wrong

abbrev pub boolean_in : String → String → Option Json → Checked Bool
boolean_in missing wrong none = refused missing
boolean_in missing wrong (some (boolean b)) = accepted b
boolean_in missing wrong _ = refused wrong

-- json.Unmarshal into a field of models.Message: an absent value and `null` leave it as it is.
abbrev pub invalid_format : String
invalid_format = "invalid message format"

abbrev pub text_field : Option Json → Checked String
text_field none = accepted ""
text_field (some null) = accepted ""
text_field (some (text s)) = accepted s
text_field _ = refused invalid_format

abbrev pub boolean_field : Option Json → Checked Bool
boolean_field none = accepted false
boolean_field (some null) = accepted false
boolean_field (some (boolean b)) = accepted b
boolean_field _ = refused invalid_format

abbrev pub number_field : Option Json → Checked ℕ
number_field none = accepted 0
number_field (some null) = accepted 0
number_field (some (whole n)) = accepted n
number_field _ = refused invalid_format

-- `is_time` says which texts are moments as RFC 3339 writes them.
abbrev pub time_field : (String → Bool) → Option Json → Checked (Unit {0})
time_field is_time none = accepted tt
time_field is_time (some null) = accepted tt
time_field is_time (some (text s)) = if is_time s then accepted tt else refused invalid_format
time_field is_time _ = refused invalid_format

unfoldable pub unmarshal : (String → Bool) → Fields → Checked Message
unmarshal is_time fields = do
  id ← number_field (fields "id")
  from_id ← number_field (fields "from_id")
  private_id ← number_field (fields "private_id")
  message_type ← text_field (fields "message_type")
  content ← text_field (fields "content")
  gif_url ← text_field (fields "gif_url")
  delivered ← boolean_field (fields "delivered")
  read ← boolean_field (fields "read")
  time_field is_time (fields "created_at")
  accepted (record {
    id = id;
    from_id = from_id;
    private_id = private_id;
    message_type = message_type;
    content = content;
    gif_url = gif_url;
    delivered = delivered;
    read = read;
    created_at = 0;
  })

abbrev pub with_gif : Message → Message
with_gif m =
    if m.message_type == "gif" && not (m.gif_url == "") then record m { content = m.gif_url } else m

-- The message that is stored, and its receiver; `t` is the moment.
unfoldable pub read_message : (String → Bool) → ℕ → ℕ → Fields → Checked (Message × ℕ)
unfolding extract_int64 unmarshal
read_message is_time user t fields = do
  private_id ← extract_int64 fields "private_id" "private_id is missing or not a number"
  receiver_id ← extract_int64 fields "receiver_id" "receiver_id is missing or not a number"
  message_type ←
      text_in "message_type is missing" "message_type must be a string" (fields "message_type")
  m ← unmarshal is_time fields
  accepted (
    with_gif (record m {
      from_id = user;
      private_id = private_id;
      message_type = message_type;
      created_at = t;
    }),
    receiver_id,
  )

-- The conversation, the receiver, and whether the client is typing.
unfoldable pub read_typing : Fields → Checked (ℕ × ℕ × Bool)
unfolding extract_int64
read_typing fields = do
  private_id ← extract_int64 fields "private_id" "private_id is missing or not a number"
  receiver_id ← extract_int64 fields "receiver_id" "receiver_id is missing or not a number"
  is_typing ← boolean_in "is_typing is missing" "is_typing must be a boolean" (fields "is_typing")
  accepted (private_id, receiver_id, is_typing)
