-- ===== src/Realtime/Sending.antt =====
-- What sending and closing leave of the hub (internals/realtime/hub.go).
use gotel_reserves.Base.{
  ℕ, ◌≡◌, ◌≢◌, refl, ap, ◌∙◌, Bool, true, false, List, [], ◌∷◌, ◌++◌, nat_eq, arith, select, exists,
  All, All-append, All-imp, All-select, All-both, Bool-cases, inl, inr,
}
use gotel_reserves.Realtime.Hub.{
  HubEvent, Client, Channel, Hub, offer, send_event, send_all, same_client, added, new_client,
  close, close_all, shutdown_event, send_waiting,
}

abbrev pub Open : Hub → Client → Type 0
Open h c = (h.channels c.key).closed ≡ false

-- The keys of these clients are different.
abbrev pub Apart : List Client → Type 0
Apart [] = Unit
Apart (c ∷ cs) = All (λ (d : Client). d.key ≢ c.key) cs × Apart cs

-- The hub `h'` has the clients of `h`, the same channels are closed, and nothing went wrong.
pub record Like (h h' : Hub) : Type 0 where
  pub same_clients : h'.clients ≡ h.clients
  pub same_panic : h'.panicked ≡ h.panicked
  pub same_closed : (k : ℕ) → (h'.channels k).closed ≡ (h.channels k).closed

pub offer_closed : (e : HubEvent) (ch : Channel) → (offer e ch).closed ≡ ch.closed
offer_closed e ch = ground arith

pub send_event-Like :
    (e : HubEvent) (c : Client) (h : Hub) → Open h c → Like h (send_event e c.key h)
unfolding send_event
send_event-Like e c h o = record {
  same_clients = rw o refl;
  same_panic = rw o refl;
  same_closed = λ k. rw o (
      ground (
        arith,
        offer_closed e (h.channels c.key),
        ap (λ j. (h.channels j).closed) {x = k} {y = c.key},
      ));
}

pub send_waiting-Like :
    (e : HubEvent) (c : Client) (h : Hub) → Open h c → Like h (send_waiting e c.key h)
unfolding send_waiting
send_waiting-Like e c h o = record {
  same_clients = rw o refl;
  same_panic = rw o refl;
  same_closed = λ k. rw o (ground (arith, ap (λ j. (h.channels j).closed) {x = k} {y = c.key}));
}

pub Like-refl : (h : Hub) → Like h h
Like-refl h = record { same_clients = refl; same_panic = refl; same_closed = λ k. refl }

pub Like-trans : (h h' h'' : Hub) → Like h h' → Like h' h'' → Like h h''
Like-trans h h' h'' l m = record {
  same_clients = m.same_clients ∙ l.same_clients;
  same_panic = m.same_panic ∙ l.same_panic;
  same_closed = λ k. m.same_closed k ∙ l.same_closed k;
}

pub Open-Like : (h h' : Hub) (cs : List Client) → Like h h' → All (Open h) cs → All (Open h') cs
Open-Like h h' cs l o = All-imp _ _ cs (λ c p. l.same_closed c.key ∙ p) o

pub send_all-Like :
    (e : HubEvent) (cs : List Client) (h : Hub) → All (Open h) cs → Like h (send_all e cs h)
unfolding send_all
send_all-Like e [] h o = Like-refl h
send_all-Like e (c ∷ cs) h o =
    let sent = send_event-Like e c h o.0 in
    Like-trans h _ _ sent
      (send_all-Like e cs (send_event e c.key h) (Open-Like h (send_event e c.key h) cs sent o.1))

pub Apart-append :
    (c : Client) (cs : List Client)
    → exists (same_client c) cs ≡ false
    → Apart cs
    → Apart (cs ++ c ∷ [])
Apart-append c [] n a = (tt, tt)
Apart-append c (d ∷ cs) n a = elim (Bool-cases (same_client c d)) [
  | inl e ↦ cc (rw e at n)
  | inr e ↦ (All-append _ cs (c ∷ []) a.0 (ground arith, tt), Apart-append c cs (rw e at n) a.1)
]

pub Apart-added : (c : Client) (cs : List Client) → Apart cs → Apart (added c cs)
Apart-added c cs a = elim (Bool-cases (exists (same_client c) cs)) [
  | inl e ↦ rw e a
  | inr e ↦ rw e (Apart-append c cs e a)
]

pub All-added {κ} :
    (P : Client → Type κ) (c : Client) (cs : List Client) → P c → All P cs → All P (added c cs)
All-added P c cs p a = elim (Bool-cases (exists (same_client c) cs)) [
  | inl e ↦ rw e a
  | inr e ↦ rw e (All-append P cs (c ∷ []) a (p, tt))
]

pub new_client-Open : (c d : Client) (h : Hub) → Open h d → Open (new_client c h) d
new_client-Open c d h o = ground arith

pub Apart-select : (p : Client → Bool) (cs : List Client) → Apart cs → Apart (select p cs)
Apart-select p [] a = tt
Apart-select p (c ∷ cs) a = elim (Bool-cases (p c)) [
  | inl e ↦ rw e (All-select _ p cs a.0, Apart-select p cs a.1)
  | inr e ↦ rw e (Apart-select p cs a.1)
]

pub exists-All :
    (p : Client → Bool) (cs : List Client) → exists p cs ≡ false → All (λ c. p c ≡ false) cs
exists-All p [] e = tt
exists-All p (c ∷ cs) e = elim (Bool-cases (p c)) [
  | inl q ↦ cc (rw q at e)
  | inr q ↦ (q, exists-All p cs (rw q at e))
]

pub close_all-calm :
    (cs : List Client) (h : Hub)
    → h.panicked ≡ false
    → Apart cs
    → All (Open h) cs
    → (close_all cs h).panicked ≡ false
unfolding close_all close
close_all-calm [] h p a o = p
close_all-calm (c ∷ cs) h p a o =
    let l = send_event-Like shutdown_event c h o.0 in
    close_all-calm cs _ (l.same_panic ∙ p) a.1 (
      All-imp _ _ cs (λ d q. ground (arith, q.0, l.same_closed d.key ∙ q.1))
        (All-both _ _ cs a.0 o.1))

-- A client that is in the hub is open, if all there are.
pub held-Open :
    (c : Client) (h : Hub) (cs : List Client)
    → exists (same_client c) cs ≡ true
    → All (Open h) cs
    → Open h c
held-Open c h [] there o = cc
held-Open c h (d ∷ cs) there o = elim (Bool-cases (same_client c d)) [
  | inl e ↦ ap (λ k. (h.channels k).closed) {x = c.key} {y = d.key} (ground (arith, e)) ∙ o.0
  | inr e ↦ held-Open c h cs (rw e at there) o.1
]

pub exists-added : (c : Client) (cs : List Client) → exists (same_client c) (added c cs) ≡ true
exists-added c cs = elim (Bool-cases (exists (same_client c) cs)) [
  | inl e ↦ rw (e, e) refl
  | inr e ↦ rw e (found_last cs)
]
  where
    found_last : (ds : List Client) → exists (same_client c) (ds ++ c ∷ []) ≡ true
    found_last [] = ground arith
    found_last (d ∷ ds) = ground (arith, found_last ds)

close_all-stays :
    (k : ℕ) (cs : List Client) (h : Hub)
    → (h.channels k).closed ≡ true
    → ((close_all cs h).channels k).closed ≡ true
unfolding close_all close send_event
close_all-stays k [] h e = e
close_all-stays k (c ∷ cs) h e =
    close_all-stays k cs (close c.key (send_event shutdown_event c.key h))
      (ground (arith, e, offer_closed shutdown_event (h.channels c.key)))

-- Closing the clients closes each of them.
pub close_all-closes :
    (c : Client) (cs : List Client) (h : Hub)
    → exists (same_client c) cs ≡ true
    → ((close_all cs h).channels c.key).closed ≡ true
unfolding close_all close
close_all-closes c [] h there = cc
close_all-closes c (d ∷ cs) h there = elim (Bool-cases (same_client c d)) [
  | inl e ↦ close_all-stays c.key cs _ (ground (arith, e))
  | inr e ↦ close_all-closes c cs _ (rw e at there)
]
