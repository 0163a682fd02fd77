-- ===== src/Realtime/Marks.antt =====
-- What may become of the messages while a client is heard (internals/routes/websocket.go).
use gotel_reserves.Base.{
  ℕ, ◌≡◌, ◌≢◌, refl, Bool, true, List, [], ◌∷◌, ◌++◌, nat_eq, string_eq, Bool-cases, inl, inr,
  update_where, All,
}
use gotel_reserves.Conversations.Messages.{Message, mark_delivered, mark_read}

abbrev pub message_id_of : Message → ℕ
message_id_of m = m.id

-- The row `x` became `y`: its marks may have been set, by others than its sender.
pub record Stays (user : ℕ) (x y : Message) : Type 0 where
  pub same : y ≡ record x { delivered = y.delivered; read = y.read }
  pub own : x.from_id ≡ user → y ≡ x
  pub delivered_stays : x.delivered ≡ true → y.delivered ≡ true
  pub read_stays : x.read ≡ true → y.read ≡ true

-- The rows after a client of `user` was heard: the old ones stay, and one of that user may have come.
abbrev pub Kept : ℕ → List Message → List Message → Type 0
Kept user [] [] = Unit
Kept user [] (m ∷ ms) = (m.from_id ≡ user) × (ms ≡ [])
Kept user (x ∷ xs) [] = ⊥
Kept user (x ∷ xs) (y ∷ ys) = Stays user x y × Kept user xs ys

module _ (user : ℕ) where
  Stays-refl : (x : Message) → Stays user x x
  Stays-refl x = record {
    same = refl;
    own = λ e. refl;
    delivered_stays = λ e. e;
    read_stays = λ e. e;
  }

  pub Kept-refl : (xs : List Message) → Kept user xs xs
  Kept-refl [] = tt
  Kept-refl (x ∷ xs) = (Stays-refl x, Kept-refl xs)

  pub Kept-append :
      (xs : List Message) (m : Message) → m.from_id ≡ user → Kept user xs (xs ++ m ∷ [])
  Kept-append [] m e = (e, refl)
  Kept-append (x ∷ xs) m e = (Stays-refl x, Kept-append xs m e)

  pub Kept-update_where :
      (p : Message → Bool) (change : Message → Message)
      → ((x : Message) → x.from_id ≢ user → Stays user x (change x))
      → (xs : List Message) → All (λ (x : Message). p x ≡ true → x.from_id ≢ user) xs
      → Kept user xs (update_where p change xs)
  Kept-update_where p change step [] h = tt
  Kept-update_where p change step (x ∷ xs) h = elim (Bool-cases (p x)) [
    | inl e ↦ rw e (step x (h.0 e), Kept-update_where p change step xs h.1)
    | inr e ↦ rw e (Stays-refl x, Kept-update_where p change step xs h.1)
  ]

  pub mark_delivered-Stays : (x : Message) → x.from_id ≢ user → Stays user x (mark_delivered x)
  mark_delivered-Stays x n = record {
    same = refl;
    own = λ e. absurd (n e);
    delivered_stays = λ e. refl;
    read_stays = λ e. e;
  }

  pub mark_read-Stays : (x : Message) → x.from_id ≢ user → Stays user x (mark_read x)
  mark_read-Stays x n = record {
    same = refl;
    own = λ e. absurd (n e);
    delivered_stays = λ e. e;
    read_stays = λ e. refl;
  }
