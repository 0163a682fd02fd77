-- ===== src/Realtime/Honesty.antt =====
-- What a client cannot do to the messages, whatever it sends (internals/routes/websocket.go).
use gotel_reserves.Base.{
  ℕ, ◌≡◌, ◌≢◌, refl, sym, ap, ◌∙◌, String, Bool, true, false, Option, none, some, ◌==◌, nat_eq,
  string_eq, arith, Bool-cases, Option-cases, inl, inr, find, exists, All, All-imp, has_key,
  DistinctKeys, found_alone,
}
use gotel_reserves.Conversations.Messages.{
  Message, ChatDb, create_message, insert_message, has_private_id, hydrate_gif_url, hydrated,
  get_message_by_id, mark_delivered, mark_read, mark_message_as_delivered, mark_message_as_read,
}
use gotel_reserves.Realtime.Payloads.{
  Fields, Checked, accepted, refused, extract_int64, read_message, read_typing, with_gif, ◌>>=◌,
}
use gotel_reserves.Backend.Exec.{next_fault}
use gotel_reserves.Realtime.Incoming.{
  IncomingEvent, ChatState, Marking, asked, ask, on_inserted, on_message, delivering, reading,
  on_marked, on_looked_up, on_marking, on_typing, on_fields, handle_incoming_events,
}
use gotel_reserves.Realtime.Marks.{
  message_id_of, Kept, Kept-refl, Kept-append, Kept-update_where, mark_delivered-Stays,
  mark_read-Stays,
}

-- What is read of a payload meets `P`.
abbrev Accepts : {A : Type 0} → (A → Type 0) → Checked A → Type 0
Accepts {A} P m = (a : A) → m ≡ accepted a → P a

Accepts-bind :
    {A B : Type 0} {P : B → Type 0} (m : Checked A) (f : A → Checked B)
    → ((a : A) → Accepts P (f a))
    → Accepts P (m >>= f)
unfolding ◌>>=◌
Accepts-bind (accepted a) f h b e = h a b e
Accepts-bind (refused message) f h b e = cc

with_gif_from : (m : Message) → (with_gif m).from_id ≡ m.from_id
with_gif_from m = ground arith

read_message_from :
    (is_time : String → Bool) (user t : ℕ) (fields : Fields)
    → Accepts (λ (r : Message × ℕ). r.0.from_id ≡ user) (read_message is_time user t fields)
unfolding read_message
read_message_from is_time user t fields = Accepts-bind _ _ (λ private_id.
    Accepts-bind _ _
      (λ receiver_id. Accepts-bind _ _ (λ type. Accepts-bind _ _ (λ m r e. ground arith))))

module _ {A : Type 0} where
  asked_after :
      (P : ChatDb → Type 0) (lost : Bool) (f : ChatDb → A × ChatDb) (s : ChatState)
      → P s.db
      → P (f s.db).1
      → P (asked lost f s).1.db
  asked_after P true f s before after = before
  asked_after P false f s before after = after

  ask_after :
      (P : ChatDb → Type 0) (f : ChatDb → A × ChatDb) (s : ChatState)
      → P s.db
      → P (f s.db).1
      → P (ask f s).1.db
  unfolding ask
  ask_after P f s before after =
      let (lost, rest) = next_fault s.faults in
      asked_after P lost f (record s { faults = rest }) before after

  asked_answer :
      (lost : Bool) (f : ChatDb → A × ChatDb) (s : ChatState) (a : A)
      → (asked lost f s).0 ≡ some a
      → (f s.db).0 ≡ a
  asked_answer true f s a h = cc
  asked_answer false f s a h = cc

  ask_answer :
      (f : ChatDb → A × ChatDb) (s : ChatState) (a : A) → (ask f s).0 ≡ some a → (f s.db).0 ≡ a
  unfolding ask
  ask_answer f s a h =
      let (lost, rest) = next_fault s.faults in asked_answer lost f (record s { faults = rest }) a h

-- What `GetMessageByID` finds is a row, but for the address of a picture.
looked_up :
    (id : ℕ) (d : ChatDb) (m : Message)
    → get_message_by_id id d ≡ some m
    → (row : Message) × (find (has_key message_id_of id) d.messages ≡ some row)
      × (row.from_id ≡ m.from_id)
unfolding get_message_by_id hydrate_gif_url
looked_up id d m h = elim (Option-cases (find (has_key message_id_of id) d.messages)) [
  | inl e ↦ cc (ap hydrated (sym e) ∙ h)
  | inr (row, e) ↦ (row, e, ground (arith, ap hydrated (sym e) ∙ h))
]

-- The tables of `s` and those after.
abbrev Safe : ℕ → ChatDb → ChatDb → Type 0
Safe user d d' = Kept user d.messages d'.messages × (d'.privates ≡ d.privates)

module _ (user : ℕ) where
  Safe-refl : (d : ChatDb) → Safe user d d
  Safe-refl d = (Kept-refl user d.messages, refl)

  insert_message-Safe :
      (m : Message) (t : ℕ) (d : ChatDb) → m.from_id ≡ user → Safe user d (insert_message m t d).1
  unfolding insert_message create_message
  insert_message-Safe m t d e =
      elim (Bool-cases (exists (has_private_id m.private_id) d.privates)) [
        | inl there ↦ rw there (Kept-append user d.messages _ e, refl)
        | inr absent ↦ rw absent (Safe-refl d)
      ]

  on_inserted_db :
      (receiver : ℕ) (m : Message) (r : Option (Option ℕ) × ChatState)
      → (on_inserted user receiver m r).db ≡ r.1.db
  on_inserted_db receiver m (none, s) = refl
  on_inserted_db receiver m (some none, s) = refl
  on_inserted_db receiver m (some (some id), s) = ground arith

  on_message-Safe :
      (t : ℕ) (c : Checked (Message × ℕ)) (s : ChatState)
      → Accepts (λ (r : Message × ℕ). r.0.from_id ≡ user) c
      → Safe user s.db (on_message user t c s).db
  on_message-Safe t (refused message) s h = Safe-refl s.db
  on_message-Safe t (accepted (m, receiver)) s h =
      rw (on_inserted_db receiver m (ask (insert_message m t) s)) (
        ask_after (Safe user s.db) (insert_message m t) s (Safe-refl s.db)
          (insert_message-Safe m t s.db (h (m, receiver) refl)))

  -- Marking a message that others sent is safe.
  abbrev Marks : Marking → Type 0
  Marks k =
      (id : ℕ) (d : ChatDb)
      → All (λ (x : Message). has_key message_id_of id x ≡ true → x.from_id ≢ user) d.messages
      → Safe user d (k.mark id d)

  delivering-Marks : Marks (delivering user)
  unfolding mark_message_as_delivered
  delivering-Marks id d h =
      (Kept-update_where user _ mark_delivered (mark_delivered-Stays user) d.messages h, refl)

  reading-Marks : Marks reading
  unfolding mark_message_as_read
  reading-Marks id d h =
      (Kept-update_where user _ mark_read (mark_read-Stays user) d.messages h, refl)

  on_marked_db :
      (k : Marking) (id : ℕ) (m : Message) (r : Option (Unit {0}) × ChatState)
      → (on_marked user k id m r).db ≡ r.1.db
  on_marked_db k id m (none, s) = refl
  on_marked_db k id m (some v, s) = refl

  of_others :
      (id : ℕ) (d : ChatDb) (m : Message)
      → DistinctKeys message_id_of d.messages
      → get_message_by_id id d ≡ some m
      → m.from_id ≢ user
      → All (λ (x : Message). has_key message_id_of id x ≡ true → x.from_id ≢ user) d.messages
  of_others id d m apart h n =
      let (row, found, sender) = looked_up id d m h in
      All-imp _ _ d.messages
        (λ x alone e same. n (sym sender ∙ ap (λ (y : Message). y.from_id) (sym (alone e)) ∙ same))
        (found_alone message_id_of id d.messages row apart found)

  on_looked_up-Safe :
      (k : Marking) (id : ℕ) (o : Option (Option Message)) (s : ChatState)
      → Marks k
      → DistinctKeys message_id_of s.db.messages
      → ((m : Option Message) → o ≡ some m → get_message_by_id id s.db ≡ m)
      → Safe user s.db (on_looked_up user k id (o, s)).db
  on_looked_up-Safe k id none s marks apart h = Safe-refl s.db
  on_looked_up-Safe k id (some none) s marks apart h = Safe-refl s.db
  on_looked_up-Safe k id (some (some m)) s marks apart h = elim (Bool-cases (m.from_id == user)) [
    | inl e ↦ rw e (Safe-refl s.db)
    | inr e ↦
        rw (e, on_marked_db k id m (ask (λ d. (tt, k.mark id d)) s))
          (ask_after (Safe user s.db) (λ d. (tt, k.mark id d)) s (Safe-refl s.db)
            (marks id s.db (of_others id s.db m apart (h (some m) refl) (λ same. ground arith))))
  ]

  on_marking-Safe :
      (k : Marking) (c : Checked ℕ) (s : ChatState)
      → Marks k
      → DistinctKeys message_id_of s.db.messages
      → Safe user s.db (on_marking user k c s).db
  on_marking-Safe k (refused message) s marks apart = Safe-refl s.db
  on_marking-Safe k (accepted id) s marks apart =
      let look : ChatDb → Option Message × ChatDb = λ d. (get_message_by_id id d, d) in
      let run = ask look s in
      let same : run.1.db ≡ s.db = ask_after (λ d. d ≡ s.db) look s refl refl in
      rw same at (
        on_looked_up-Safe k id run.0 run.1 marks (rw same apart)
          (λ m e. rw same (ask_answer look s m e)))

  on_typing-Safe :
      (c : Checked (ℕ × ℕ × Bool)) (s : ChatState) → Safe user s.db (on_typing user c s).db
  on_typing-Safe (refused message) s = Safe-refl s.db
  on_typing-Safe (accepted (a, b, c)) s = Safe-refl s.db

  on_fields-Safe :
      (is_time : String → Bool) (t : ℕ) (type : String) (o : Option Fields) (s : ChatState)
      → DistinctKeys message_id_of s.db.messages
      → Safe user s.db (on_fields is_time user t type o s).db
  on_fields-Safe is_time t type none s apart = Safe-refl s.db
  on_fields-Safe is_time t type (some fields) s apart =
      let id = extract_int64 fields "message_id" "message_id is missing or not a number" in
      elim (Bool-cases (type == "message")) [
        | inl e ↦ rw e (
            on_message-Safe t (read_message is_time user t fields) s
              (read_message_from is_time user t fields))
        | inr e ↦ elim (Bool-cases (type == "delivered")) [
          | inl f ↦ rw (e, f) (on_marking-Safe (delivering user) id s delivering-Marks apart)
          | inr f ↦ elim (Bool-cases (type == "read")) [
            | inl g ↦ rw (e, f, g) (on_marking-Safe reading id s reading-Marks apart)
            | inr g ↦ elim (Bool-cases (type == "typing")) [
              | inl h ↦ rw (e, f, g, h) (on_typing-Safe (read_typing fields) s)
              | inr h ↦ rw (e, f, g, h) (Safe-refl s.db)
            ]
          ]
        ]
      ]

-- Whatever a client sends, and whatever fails while it is handled: no message is lost or changed but
-- for its marks, no mark is taken back, the messages of the client's own user keep their marks, and
-- what is new is one message of that user at most; where the numbers of the messages are different.
pub handle_incoming_safe :
    (is_time : String → Bool) (user t : ℕ) (e : IncomingEvent) (s : ChatState)
    → DistinctKeys message_id_of s.db.messages
    → let d' = (handle_incoming_events is_time user t e s).db in
      Kept user s.db.messages d'.messages × (d'.privates ≡ s.db.privates)
unfolding handle_incoming_events
handle_incoming_safe is_time user t e s apart =
    on_fields-Safe user is_time t e.event_type e.payload s apart
