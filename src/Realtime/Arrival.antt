-- ===== src/Realtime/Arrival.antt =====
-- `RegisterClientConnection` of internals/realtime/hub.go with its goroutine, which marks the messages to
-- a user who comes online. The UPDATE is taken to act right after the registration.
use gotel_reserves.Base.{
  ◌≡◌, refl, Bool, false, not, List, [], ◌∷◌, ◌++◌, ◌==◌, nat_eq, if◌then◌else◌, length, select,
  exists, arith, Bool-cases, inl, inr,
}
use gotel_reserves.Conversations.Messages.{
  in_one_of, is_incoming, mark_all_incoming_messages_as_delivered,
}
use gotel_reserves.Conversations.Delivery.{mark_all-delivers}
use gotel_reserves.Realtime.Hub.{Client, of_user, same_client, added, register_client_connection}
use gotel_reserves.Realtime.Incoming.{ChatState, ask}

abbrev first_connection : Client → List Client → Bool
first_connection c cs = length (select (of_user c.user) (added c cs)) == 1

-- An UPDATE that is lost is only logged.
unfoldable pub register_client : Client → ChatState → ChatState
register_client c s =
    let s' = record s { hub = register_client_connection c s.hub } in
    if first_connection c s.hub.clients
    then (ask (λ d. (tt, mark_all_incoming_messages_as_delivered c.user d)) s').1
    else s'

alone :
    (c : Client) (cs : List Client)
    → exists (of_user c.user) cs ≡ false
    → select (of_user c.user) (cs ++ c ∷ []) ≡ c ∷ []
alone c [] e = ground arith
alone c (d ∷ cs) e = elim (Bool-cases (of_user c.user d)) [
  | inl f ↦ cc (rw f at e)
  | inr f ↦ rw f (alone c cs (rw f at e))
]

-- Where nothing fails: when a new connection is the first one of its user, the hub registers it, no
-- message to that user is left undelivered, and the messages that the user sent, and those of other
-- conversations, are as before.
pub register_client-delivers :
    (c : Client) (s : ChatState)
    → s.faults ≡ []
    → exists (of_user c.user) s.hub.clients ≡ false
    → exists (same_client c) s.hub.clients ≡ false
    → let s' = register_client c s in
      (s'.hub ≡ register_client_connection c s.hub)
      × (exists (is_incoming s'.db.privates c.user) s'.db.messages ≡ false)
      × (select (λ m. m.from_id == c.user) s'.db.messages
          ≡ select (λ m. m.from_id == c.user) s.db.messages)
      × (select (λ m. not (in_one_of s.db.privates c.user m)) s'.db.messages
          ≡ select (λ m. not (in_one_of s.db.privates c.user m)) s.db.messages)
unfolding register_client ask
register_client-delivers c s f offline new =
    let (all_delivered, own_kept, rest_kept) = mark_all-delivers c.user s.db in
    rw (new, alone c s.hub.clients offline, f) (refl, all_delivered, own_kept, rest_kept)
