-- ===== src/Realtime/Open.antt =====
-- Nothing is sent on a closed channel (internals/realtime/hub.go).
use gotel_reserves.Base.{ℕ, ◌≡◌, ◌≢◌, true, false, List, [], ◌∷◌, nat_eq, exists, All}
use gotel_reserves.Realtime.Hub.{
  Client, Hub, same_client, Happening, connect, greet, beat, disconnect, happen,
}
use gotel_reserves.Realtime.Sending.{Open, Apart}

-- A client is of the user that its key says.
abbrev pub Known : (ℕ → ℕ) → Client → Type 0
Known user_of c = c.user ≡ user_of c.key

-- Nothing went wrong, the clients of the hub are open, and each is there once.
pub record IsRunning (user_of : ℕ → ℕ) (h : Hub) : Type 0 where
  pub calm : h.panicked ≡ false
  pub open_clients : All (Open h) h.clients
  pub once_each : Apart h.clients
  pub known : All (Known user_of) h.clients

abbrev GoneFrom : (ℕ → ℕ) → Client → Hub → Type 0
GoneFrom user_of c h = IsRunning user_of h × All (λ (d : Client). d.key ≢ c.key) h.clients

-- A connection that comes or goes is of the user that its key says, and one that is greeted or whose
-- heart beats is in the hub at that moment.
abbrev pub Fits : (ℕ → ℕ) → Happening → Hub → Type 0
Fits user_of (connect c) h = Known user_of c
Fits user_of (disconnect c) h = Known user_of c
Fits user_of (greet c) h = exists (same_client c) h.clients ≡ true
Fits user_of (beat c) h = exists (same_client c) h.clients ≡ true
Fits user_of _ h = Unit

-- Each happening fits the hub that it comes upon.
abbrev pub AllFit : (ℕ → ℕ) → List Happening → Hub → Type 0
AllFit user_of [] h = Unit
AllFit user_of (x ∷ xs) h = Fits user_of x h × AllFit user_of xs (happen x h)
