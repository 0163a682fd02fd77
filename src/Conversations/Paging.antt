-- ===== src/Conversations/Paging.antt =====
-- Which messages the pages of a conversation show (`HandleGetPrivateMessages` of
-- internals/handlers/convo.go).
use native.Mathlib.Nat.{suc-mul}
use gotel_reserves.Base.{
  ℕ, ◌+◌, ◌-◌, ◌*◌, ◌<◌, ◌≡◌, ap, sym, ◌∙◌, true, List, ◌∷◌, ◌++◌, arith, ltb→lt, length, take,
  drop, take-take, length-take_short, suc, drop-drop, split_at,
}
use gotel_reserves.Conversations.Messages.{
  Message, ChatDb, history, get_messages_by_private_id, get_page,
}

-- what the conversation holds from the block of a page on
abbrev pub from_page : ℕ → ℕ → ℕ → ChatDb → List Message
from_page id page limit d = drop ((page - 1) * (limit + 1)) (history id d)

same : (q : ℕ) → q + 1 - 1 ≡ q
same q = omega arith

succ : (n : ℕ) → suc n ≡ n + 1
succ n = omega arith

next : (q : ℕ) → suc q ≡ q + 2 - 1
next q = omega arith

blocks : (q n : ℕ) → (q + 1 - 1) * (n + 1) + suc n ≡ (q + 2 - 1) * (n + 1)
blocks q n =
    ap (λ k. k * (n + 1) + suc n) (same q)
    ∙ ap (λ k. q * (n + 1) + k) (succ n)
    ∙ sym (suc-mul q (n + 1))
    ∙ ap (λ k. k * (n + 1)) (next q)

next_block :
    (q n : ℕ) (all : List Message)
    → drop (suc n) (drop ((q + 1 - 1) * (n + 1)) all) ≡ drop ((q + 2 - 1) * (n + 1)) all
next_block q n all =
    drop-drop (suc n) ((q + 1 - 1) * (n + 1)) all ∙ ap (λ k. drop k all) (blocks q n)

-- Where the reply says that there is a next page, the conversation goes on behind the messages of the
-- reply with one message that no page shows: the next page starts behind it.
pub get_page-skips :
    (id q limit : ℕ) (d : ChatDb)
    → (get_page id (q + 1) limit d).has_next_page ≡ true
    → (m : Message) × (from_page id (q + 1) limit d
        ≡ (get_page id (q + 1) limit d).messages ++ m ∷ from_page id (q + 2) limit d)
unfolding get_page get_messages_by_private_id
get_page-skips id q limit d h =
    let l = from_page id (q + 1) limit d in
    let longer : limit < length l =
      omega
        (arith, ltb→lt limit (length (take (limit + 1) l)) h, length-take_short (limit + 1) l) in
    let (m, e) = split_at limit l longer in
    (
      m,
      rw h (
          e
          ∙ ap (λ k. k ++ m ∷ drop (suc limit) l)
              (sym (take-take limit (limit + 1) l (omega arith)))
          ∙ ap (λ k. take limit (take (limit + 1) l) ++ m ∷ k) (next_block q limit (history id d))),
    )
