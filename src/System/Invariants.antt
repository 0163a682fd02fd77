-- ===== src/System/Invariants.antt =====
-- The invariants of the tables `rooms` and `users` over runs of the backend (cmd/api/main.go).
use gotel_reserves.Base.{ℕ, String, ◌≤◌, ◌≡◌, refl, true, List, [], ◌∷◌, arith, All-imp}
use gotel_reserves.Backend.Rows.{Db, JobType, RoomRow, transcribe, summarize}
use gotel_reserves.Backend.Exec.{World}
use gotel_reserves.LiveKit.{LiveKitService, IsRemote}
use gotel_reserves.Rooms.Repository.{has_id, extend_row, insert_row}
use gotel_reserves.Rooms.Lifecycle.{Advances, rank, Advances-update_where, insert_row-Advances}
use gotel_reserves.Rooms.Columns.{
  IsConsistent, AreSound, AreSound-update_where, insert_row-AreSound,
}
use gotel_reserves.Rooms.Methods.{enforce_all-Preserves}
use gotel_reserves.Rooms.Serving.{
  handle_create_room-Preserves, handle_list_rooms-Preserves, handle_get_room-Preserves,
  handle_end_room-Preserves, handle_issue_guest_token-Preserves, handle_extend_session-Preserves,
}
use gotel_reserves.Accounts.Users.{insert_user}
use gotel_reserves.Accounts.Keeps as Accounts
use gotel_reserves.Accounts.Keeps.{IsKeptByAccounts}
use gotel_reserves.Accounts.Callback.{callback-Preserves}
use gotel_reserves.Accounts.Middleware.{authenticate-Preserves}
use gotel_reserves.Accounts.Columns.{AreUsers, AreUsers-IsKeptByAccounts}
use gotel_reserves.Jobs.Keeps.{HandlerKeeps, worker_round-Preserves, drain_delayed-Preserves}
use gotel_reserves.Webhooks.Events.{startable, started_row, finishable, finished_row}
use gotel_reserves.Webhooks.Keeps.{IsStable, handle_webhook-Preserves}
use gotel_reserves.Transcripts.Keeps as Transcripts
use gotel_reserves.Summaries.Keeps as Summaries
use gotel_reserves.Insights.Keeps.{
  transcript_by_room-Preserves, transcript_by_id-Preserves, summary_by_room-Preserves,
  summary_by_transcript-Preserves, summary_by_id-Preserves, insights-Preserves,
}
use gotel_reserves.System.{
  Config, Event, post_room, get_rooms, get_room, delete_room, get_token, post_extend, post_webhook,
  enforcer_tick, drain_tick, worker_turn, post_register, post_login, post_refresh_session,
  post_logout, get_current_user, get_user, get_github_callback, get_transcript_of, get_summary_of,
  get_insights, get_transcript, get_summary, get_summary_by_transcript, handlers, serve, run,
}

module _ {T : Type 0} (cfg : Config T) (lk : LiveKitService) (remote : IsRemote lk)
    {I : Db → Type 0} (stable : IsStable I) where
  handlers-Keep : (type : JobType) → HandlerKeeps I (handlers cfg lk type)
  handlers-Keep transcribe = λ job.
      Transcripts.handle-Preserves stable.elsewhere cfg.spaces cfg.deepgram cfg.deepgram_http job
  handlers-Keep summarize =
      λ job. Summaries.handle-Preserves stable.elsewhere cfg.grok_model cfg.grok_http job

  serve-keeps : (e : Event T) (w : World) → I w.db → I (serve cfg lk e w).db
  unfolding serve
  serve-keeps (post_room random body) w i =
      (handle_create_room-Preserves lk remote cfg.guest_tier stable.service random body).after w i
  serve-keeps (get_rooms host) w i = (handle_list_rooms-Preserves {I = I} host).after w i
  serve-keeps (get_room raw) w i = (handle_get_room-Preserves {I = I} raw).after w i
  serve-keeps (delete_room raw guest) w i =
      (handle_end_room-Preserves {I = I} lk remote raw guest).after w i
  serve-keeps (get_token raw guest name is_host) w i =
      (handle_issue_guest_token-Preserves {I = I} lk remote cfg.guest_tier raw guest name
          is_host).after
        w i
  serve-keeps (post_extend raw body) w i =
      (handle_extend_session-Preserves stable.service cfg.guest_tier raw body).after w i
  serve-keeps (post_webhook event) w i = (handle_webhook-Preserves stable event).after w i
  serve-keeps enforcer_tick w i = (enforce_all-Preserves {I = I} lk remote cfg.guest_tier).after w i
  serve-keeps drain_tick w i = (drain_delayed-Preserves {I = I}).after w i
  serve-keeps (worker_turn type) w i =
      (worker_round-Preserves stable.elsewhere (handlers cfg lk) handlers-Keep type).after w i
  serve-keeps (post_register body) w i =
      (Accounts.registration-Preserves stable.accounts cfg.hasher body).after w i
  serve-keeps (post_login platform body random) w i =
      (Accounts.login-Preserves stable.accounts cfg.jwt cfg.jwt_key random cfg.hasher platform
          body).after
        w i
  serve-keeps (post_refresh_session platform body random) w i =
      (Accounts.refresh-Preserves stable.accounts cfg.jwt cfg.jwt_key random platform body).after w
        i
  serve-keeps (post_logout auth platform) w i =
      (authenticate-Preserves _ (Accounts.logout-Preserves stable.accounts) cfg.jwt cfg.jwt_key auth
          platform).after
        w i
  serve-keeps (get_current_user auth platform body) w i =
      (authenticate-Preserves {I = I} _ (λ _. Accounts.current_user-Preserves platform body) cfg.jwt
          cfg.jwt_key auth platform).after
        w i
  serve-keeps (get_user auth platform id) w i =
      (authenticate-Preserves {I = I} _ (λ _. Accounts.get_user-Preserves id) cfg.jwt cfg.jwt_key
          auth platform).after
        w i
  serve-keeps (get_transcript_of name) w i = (transcript_by_room-Preserves {I = I} name).after w i
  serve-keeps (get_summary_of name) w i = (summary_by_room-Preserves {I = I} name).after w i
  serve-keeps (get_insights name) w i = (insights-Preserves {I = I} name).after w i
  serve-keeps (get_transcript id) w i = (transcript_by_id-Preserves {I = I} id).after w i
  serve-keeps (get_summary id) w i = (summary_by_id-Preserves {I = I} id).after w i
  serve-keeps (get_summary_by_transcript id) w i =
      (summary_by_transcript-Preserves {I = I} id).after w i
  serve-keeps (get_github_callback state cookie token fetch random nonce) w i =
      (callback-Preserves stable.accounts stable.elsewhere cfg.codec cfg.gcm cfg.oauth_key cfg.jwt
          cfg.jwt_key random nonce cfg.frontend_url cfg.hasher cfg.dummy state cookie token
          fetch).after
        w i

  run-keeps : (es : List (Event T)) (w : World) → I w.db → I (run cfg lk es w).db
  unfolding run
  run-keeps [] w i = i
  run-keeps (e ∷ es) w i = run-keeps es (serve cfg lk e w) (serve-keeps e w i)

started_row-IsConsistent :
    (name : String) (t : ℕ) (r : RoomRow)
    → startable name r ≡ true
    → IsConsistent r
    → IsConsistent (started_row t r)
started_row-IsConsistent name t r h c = record {
  draft_untouched = λ e. ground arith;
  live_started = λ e. ground (arith, c.draft_untouched);
  ended_dated = λ e. ground arith;
}

finished_row-IsConsistent : (t : ℕ) (r : RoomRow) → IsConsistent (finished_row t r)
finished_row-IsConsistent t r = record {
  draft_untouched = λ e. ground arith;
  live_started = λ e. ground arith;
  ended_dated = λ e. refl;
}

AreSound-grow : (d d' : Db) → d'.rooms ≡ d.rooms → d.next_id ≤ d'.next_id → AreSound d → AreSound d'
AreSound-grow d d' e n h = record {
  consistent = rw e h.consistent;
  named_apart = rw e h.named_apart;
  numbered = rw e (All-imp _ _ d.rooms (λ r below. omega arith) h.numbered);
  ascending = rw e h.ascending;
}

-- The statements of accounts keep what is about the rooms alone.
rooms_alone :
    {I : Db → Type 0}
    → ((d d' : Db) → d'.rooms ≡ d.rooms → d.next_id ≤ d'.next_id → I d → I d')
    → IsKeptByAccounts I
unfolding insert_user
rooms_alone grow = record {
  insert = λ name email password t d h.
      grow d (insert_user name email password t d).1 (ground arith) (ground arith) h;
  token = λ id p token t d h. grow d _ refl (omega arith) h;
}

AreSound-IsStable : IsStable AreSound
AreSound-IsStable = record {
  service = record {
    insert = insert_row-AreSound;
    extend = λ id extra d h.
        AreSound-update_where (has_id id) (extend_row extra) (λ r. refl) (λ r. refl)
          (λ r _ c. record {
            draft_untouched = c.draft_untouched;
            live_started = c.live_started;
            ended_dated = c.ended_dated;
          })
          d h;
  };
  start = λ name t d h.
      AreSound-update_where (startable name) (started_row t) (λ r. refl) (λ r. refl)
        (started_row-IsConsistent name t) d h;
  finish = λ name t d h.
      AreSound-update_where (finishable name) (finished_row t) (λ r. refl) (λ r. refl)
        (λ r _ _. finished_row-IsConsistent t r) d h;
  accounts = rooms_alone AreSound-grow;
  elsewhere = λ d d' e _ n h. AreSound-grow d d' e n h;
}

Advances-IsStable : (d₀ : Db) → IsStable (Advances d₀)
Advances-IsStable d₀ = record {
  service = record {
    insert = λ q t _ d h. insert_row-Advances d₀ q t d h;
    extend = λ id extra d h.
        Advances-update_where (has_id id) (extend_row extra) (λ r. refl) (λ r _. omega arith) d₀ d
          h;
  };
  start = λ name t d h.
      Advances-update_where (startable name) (started_row t) (λ r. refl) (λ r k. ground arith) d₀ d
        h;
  finish = λ name t d h.
      Advances-update_where (finishable name) (finished_row t) (λ r. refl) (λ r k. ground arith) d₀
        d h;
  accounts = rooms_alone (λ d d' e n h. record { at = λ id. rw e (h.at id) });
  elsewhere = λ d d' e _ n h. record { at = λ id. rw e (h.at id) };
}

AreUsers-grow : (d d' : Db) → d'.users ≡ d.users → d.next_id ≤ d'.next_id → AreUsers d → AreUsers d'
AreUsers-grow d d' e n h = record {
  emails_apart = rw e h.emails_apart;
  ids_apart = rw e h.ids_apart;
  numbered = rw e (All-imp _ _ d.users (λ u b. (b.0, omega arith)) h.numbered);
  some_id = omega (arith, h.some_id);
}

AreUsers-IsStable : IsStable AreUsers
unfolding insert_row
AreUsers-IsStable = record {
  service = record {
    insert = λ q t _ d h. AreUsers-grow d (insert_row q t d).1 (ground arith) (ground arith) h;
    extend = λ id extra d h. AreUsers-grow d _ refl (omega arith) h;
  };
  start = λ name t d h. AreUsers-grow d _ refl (omega arith) h;
  finish = λ name t d h. AreUsers-grow d _ refl (omega arith) h;
  accounts = AreUsers-IsKeptByAccounts;
  elsewhere = λ d d' _ u n h. AreUsers-grow d d' u n h;
}

module _ {T : Type 0} (cfg : Config T) (lk : LiveKitService) (remote : IsRemote lk)
    (es : List (Event T)) (w : World) where
  -- Whatever the backend goes through and whatever fails on the way, sound tables stay sound: names
  -- and numbers of rooms are distinct, and the moments in a row fit its status. LiveKit is any service
  -- that does not write to the tables.
  pub run-AreSound : AreSound w.db → AreSound (run cfg lk es w).db
  run-AreSound h = run-keeps cfg lk remote AreSound-IsStable es w h

  -- Whatever the backend goes through and whatever fails on the way, no room is lost, and none goes
  -- back from live to draft or from ended to either.
  pub run-Advances : (id : ℕ) → rank id w.db.rooms ≤ rank id (run cfg lk es w).db.rooms
  run-Advances id =
      (run-keeps cfg lk remote (Advances-IsStable w.db) es w (record { at = λ k. omega arith })).at
        id

  -- Whatever the backend goes through and whatever fails on the way, no two users have the same number
  -- or the same address, and each has a positive number below the next one, if it was so before.
  -- LiveKit is any service that does not write to the tables.
  pub run-AreUsers : AreUsers w.db → AreUsers (run cfg lk es w).db
  run-AreUsers h = run-keeps cfg lk remote AreUsers-IsStable es w h
