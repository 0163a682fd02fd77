-- ===== src/Conversations/Delivery.antt =====
-- What marking messages as delivered does (`MarkAllIncomingMessagesAsDelivered` of
-- internals/models/message.go).
use gotel_reserves.Base.{
  ℕ, ◌≡◌, refl, Bool, true, false, not, List, [], ◌∷◌, ◌==◌, nat_eq, arith, select, exists,
  update_where, Bool-cases, inl, inr,
}
use gotel_reserves.Conversations.Messages.{
  Private, Message, ChatDb, in_one_of, is_incoming, mark_delivered,
  mark_all_incoming_messages_as_delivered,
}

module _ (ps : List Private) (user : ℕ) where
  abbrev marked : List Message → List Message
  marked ms = update_where (is_incoming ps user) mark_delivered ms

  marked-none_incoming : (ms : List Message) → exists (is_incoming ps user) (marked ms) ≡ false
  marked-none_incoming [] = refl
  marked-none_incoming (m ∷ ms) = elim (Bool-cases (is_incoming ps user m)) [
    | inl e ↦ rw e (marked-none_incoming ms)
    | inr e ↦ rw (e, e) (marked-none_incoming ms)
  ]

  select-marked :
      (p : Message → Bool)
      → ((m : Message) → p (mark_delivered m) ≡ p m)
      → ((m : Message) → is_incoming ps user m ≡ true → p m ≡ false)
      → (ms : List Message) → select p (marked ms) ≡ select p ms
  select-marked p same apart [] = refl
  select-marked p same apart (m ∷ ms) = elim (Bool-cases (is_incoming ps user m)) [
    | inl e ↦ rw (e, same m, apart m e) (select-marked p same apart ms)
    | inr e ↦ rw (e, select-marked p same apart ms) refl
  ]

-- After the UPDATE for a user no message to that user is left undelivered, and the messages that the
-- user sent, and those of other conversations, are as before.
pub mark_all-delivers :
    (user : ℕ) (d : ChatDb)
    → let d' = mark_all_incoming_messages_as_delivered user d in
      (exists (is_incoming d'.privates user) d'.messages ≡ false)
      × (select (λ m. m.from_id == user) d'.messages ≡ select (λ m. m.from_id == user) d.messages)
      × (select (λ m. not (in_one_of d.privates user m)) d'.messages
          ≡ select (λ m. not (in_one_of d.privates user m)) d.messages)
unfolding mark_all_incoming_messages_as_delivered
mark_all-delivers user d = (
  marked-none_incoming d.privates user d.messages,
  select-marked d.privates user _ (λ m. refl) (λ m e. ground (arith, e)) d.messages,
  select-marked d.privates user _ (λ m. refl) (λ m e. ground (arith, e)) d.messages,
)
