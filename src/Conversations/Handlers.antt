-- ===== src/Conversations/Handlers.antt =====
-- internals/handlers/convo.go, but for the paging of messages. The first argument is the table `users`;
-- statements are not lost here.
use gotel_reserves.Base.{ℕ, String, Option, none, some, List, ◌==◌, nat_eq, if◌then◌else◌}
use gotel_reserves.Backend.Rows.{UserRow}
use gotel_reserves.Conversations.Messages.{Private, ChatDb}
use gotel_reserves.Conversations.Private.{
  PrivateView, PrivateResult, found, user_of, without_names, get_private_by_id,
  get_private_by_users, get_privates_for_user, create_private,
}

pub data ConvoBody : Type 0 where
  nothing : ConvoBody
  private : PrivateView → ConvoBody
  privates : List PrivateView → ConvoBody

-- utils.JSON: the status, the message and the data
pub record ConvoReply : Type 0 where
  pub status : ℕ
  pub message : String
  pub body : ConvoBody

abbrev pub answer : ℕ → String → ConvoBody → ConvoReply
answer status message body = record { status = status; message = message; body = body }

abbrev pub private_reply : PrivateResult → ConvoReply
private_reply (found p) = answer 200 "private conversation retrieved successfully" (private p)
private_reply _ = answer 404 "private conversation not found" nothing

-- The number in the path, if it is one.
unfoldable pub handle_get_private : List UserRow → Option ℕ → ChatDb → ConvoReply
handle_get_private users none d = answer 400 "invalid private_id" nothing
handle_get_private users (some id) d = private_reply (get_private_by_id users id d)

unfoldable pub handle_get_conversations : List UserRow → ℕ → ChatDb → ConvoReply
handle_get_conversations users user d =
    answer 200 "conversations retrieved successfully"
      (privates (get_privates_for_user users user d))

abbrev pub created_reply : PrivateResult × ChatDb → ConvoReply × ChatDb
created_reply (found p, d) = (answer 201 "private conversation created successfully" (private p), d)
created_reply (_, d) = (answer 500 "failed to create private conversation" nothing, d)

abbrev pub found_or_create :
    List UserRow → ℕ → ℕ → ℕ → ChatDb → Option Private → ConvoReply × ChatDb
found_or_create users t user receiver d (some p) =
    (answer 200 "private conversation retrieved successfully" (private (without_names p)), d)
found_or_create users t user receiver d none =
    created_reply (create_private users t user receiver d)

abbrev pub join_known : List UserRow → ℕ → ℕ → ℕ → ChatDb → Option UserRow → ConvoReply × ChatDb
join_known users t user receiver d none = (answer 404 "receiver not found" nothing, d)
join_known users t user receiver d (some u) =
    found_or_create users t user receiver d (get_private_by_users user receiver d)

abbrev pub join : List UserRow → ℕ → ℕ → Option ℕ → ChatDb → ConvoReply × ChatDb
join users t user none d = (answer 400 "invalid requested data" nothing, d)
join users t user (some receiver) d =
    if receiver == 0
    then (answer 400 "invalid requested data" nothing, d)
    else if user == receiver
    then (answer 400 "cannot start a conversation with yourself" nothing, d)
    else join_known users t user receiver d (user_of users receiver)

-- The body, if it decodes, is the receiver; `t` is the moment.
unfoldable pub handle_join_private : List UserRow → ℕ → ℕ → Option ℕ → ChatDb → ConvoReply × ChatDb
handle_join_private users t user receiver d = join users t user receiver d
