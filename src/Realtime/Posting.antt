-- ===== src/Realtime/Posting.antt =====
-- What becomes of a message that a client sends (internals/routes/websocket.go).
use gotel_reserves.Base.{
  ℕ, ◌≡◌, String, Bool, not, ◌&&◌, ◌==◌, none, some, nat_eq, string_eq, if◌then◌else◌,
}
use gotel_reserves.Conversations.Messages.{Message}
use gotel_reserves.Realtime.Payloads.{Fields, whole, text, boolean}

module _ (is_time : String → Bool) (user t private_id receiver claimed : ℕ)
    (kind content gif : String) (d r : Bool) (fields : Fields)
    (private_field : fields "private_id" ≡ some (whole private_id))
    (receiver_field : fields "receiver_id" ≡ some (whole receiver))
    (kind_field : fields "message_type" ≡ some (text kind))
    (content_field : fields "content" ≡ some (text content))
    (gif_field : fields "gif_url" ≡ some (text gif))
    (delivered_field : fields "delivered" ≡ some (boolean d))
    (read_field : fields "read" ≡ some (boolean r))
    (from_field : fields "from_id" ≡ some (whole claimed)) (no_id : fields "id" ≡ none)
    (no_moment : fields "created_at" ≡ none) where
  -- What such a payload says, as a message of the user.
  abbrev posted : ℕ → Message
  posted id = record {
    id = id;
    from_id = user;
    private_id = private_id;
    message_type = kind;
    content = if kind == "gif" && not (gif == "") then gif else content;
    gif_url = gif;
    delivered = d;
    read = r;
    created_at = t;
  }
