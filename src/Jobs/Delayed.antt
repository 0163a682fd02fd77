-- ===== src/Jobs/Delayed.antt =====
-- What a tick of the delayed scheduler does (`drainDelayed` of internals/jobs/worker.go).
use gotel_reserves.Base.{
  ℕ, ◌/◌, ◌≡◌, refl, ap, ◌∙◌, true, false, not, List, [], ◌∷◌, arith, map, select, All, Bool-cases,
  inl, inr,
}
use gotel_reserves.Backend.Rows.{Job, JobType, transcribe, summarize, second}
use gotel_reserves.Backend.Exec.{Redis, ok, World, request, logged, pure, now, ◌>>=◌}
use gotel_reserves.Jobs.Queue.{
  job_beq, job_beq_refl, ready, with_ready, push_ready, without, is_due, due_delayed, has_member,
  remove_delayed,
}
use gotel_reserves.Jobs.Worker.{move_due, move_all, drain_delayed}

-- The members of a sorted set are pairwise different.
abbrev pub Distinct : List (ℕ × Job) → Type 0
Distinct [] = Unit
Distinct ((s, x) ∷ l) = All (λ (m : ℕ × Job). job_beq x m.1 ≡ false) l × Distinct l

abbrev pub due_jobs : ℕ → List (ℕ × Job) → List Job
due_jobs t l = map (λ (m : ℕ × Job). m.1) (select (is_due t) l)

abbrev pub remaining : ℕ → List (ℕ × Job) → List (ℕ × Job)
remaining t l = select (λ m. not (is_due t m)) l

-- these jobs pushed one after the other, each on the ready list of its type
abbrev pub pushed : List Job → Redis → Redis
pushed [] r = r
pushed (j ∷ js) r = pushed js (with_ready j.type (j ∷ ready j.type r) r)

abbrev removed : List Job → List (ℕ × Job) → List (ℕ × Job)
removed [] l = l
removed (j ∷ js) l = removed js (without j l)

-- Each job is a member when its turn comes.
abbrev Present : List Job → List (ℕ × Job) → Type 0
Present [] l = Unit
Present (j ∷ js) l = (has_member j l ≡ true) × Present js (without j l)

removed_skip :
    (s : ℕ) (x : Job) (js : List Job) (l : List (ℕ × Job))
    → All (λ j. job_beq x j ≡ false) js
    → removed js ((s, x) ∷ l) ≡ (s, x) ∷ removed js l
unfolding without
removed_skip s x [] l h = refl
removed_skip s x (j ∷ js) l h = rw h.0 (removed_skip s x js (without j l) h.1)

Present-skip :
    (s : ℕ) (x : Job) (js : List Job) (l : List (ℕ × Job))
    → All (λ j. job_beq x j ≡ false) js
    → Present js l
    → Present js ((s, x) ∷ l)
unfolding without
Present-skip s x [] l h p = tt
Present-skip s x (j ∷ js) l h p = rw h.0 (p.0, Present-skip s x js (without j l) h.1 p.1)

due_apart :
    (t : ℕ) (x : Job) (l : List (ℕ × Job))
    → All (λ (m : ℕ × Job). job_beq x m.1 ≡ false) l
    → All (λ j. job_beq x j ≡ false) (due_jobs t l)
due_apart t x [] h = tt
due_apart t x (m ∷ l) h = elim (Bool-cases (is_due t m)) [
  | inl e ↦ rw e (h.0, due_apart t x l h.1)
  | inr e ↦ rw e (due_apart t x l h.1)
]

due_jobs-Present : (t : ℕ) (l : List (ℕ × Job)) → Distinct l → Present (due_jobs t l) l
unfolding without
due_jobs-Present t [] d = tt
due_jobs-Present t ((s, x) ∷ l) d = elim (Bool-cases (is_due t (s, x))) [
  | inl e ↦ rw (e, job_beq_refl x) (refl, due_jobs-Present t l d.1)
  | inr e ↦
      rw e (Present-skip s x (due_jobs t l) l (due_apart t x l d.0) (due_jobs-Present t l d.1))
]

without_self : (s : ℕ) (x : Job) (l : List (ℕ × Job)) → without x ((s, x) ∷ l) ≡ l
unfolding without
without_self s x l = rw (job_beq_refl x) refl

removed-due_jobs :
    (t : ℕ) (l : List (ℕ × Job)) → Distinct l → removed (due_jobs t l) l ≡ remaining t l
removed-due_jobs t [] d = refl
removed-due_jobs t ((s, x) ∷ l) d = elim (Bool-cases (is_due t (s, x))) [
  | inl e ↦ rw e (ap (removed (due_jobs t l)) (without_self s x l) ∙ removed-due_jobs t l d.1)
  | inr e ↦ rw e (
      removed_skip s x (due_jobs t l) l (due_apart t x l d.0)
      ∙ ap (λ k. (s, x) ∷ k) (removed-due_jobs t l d.1))
]

abbrev with_delayed : List (ℕ × Job) → Redis → Redis
with_delayed l r = record r { delayed = l }

with_delayed-with_ready :
    (type : JobType) (job : Job) (l : List (ℕ × Job)) (r : Redis)
    → with_delayed l (with_ready type (job ∷ ready type r) r)
      ≡ with_ready type (job ∷ ready type (with_delayed l r)) (with_delayed l r)
with_delayed-with_ready transcribe job l r = refl
with_delayed-with_ready summarize job l r = refl

-- the state after one job was moved
abbrev moved : Job → World → World
moved j w =
    let r = with_delayed (without j w.redis.delayed) w.redis in
    record w { faults = []; redis = with_ready j.type (j ∷ ready j.type r) r }

move_due-moves :
    (j : Job) (w : World)
    → w.faults ≡ []
    → has_member j w.redis.delayed ≡ true
    → (move_due j w).1 ≡ moved j w
unfolding move_due remove_delayed push_ready logged request ◌>>=◌
move_due-moves j w f h = ground arith

pushed-with_delayed :
    (j : Job) (js : List Job) (l : List (ℕ × Job)) (w : World)
    → pushed js (with_delayed l (moved j w).redis) ≡ pushed (j ∷ js) (with_delayed l w.redis)
pushed-with_delayed j js l w =
    ap (pushed js)
      (with_delayed-with_ready j.type j l (with_delayed (without j w.redis.delayed) w.redis))

delayed-with_ready :
    (type : JobType) (jobs : List Job) (r : Redis) → (with_ready type jobs r).delayed ≡ r.delayed
delayed-with_ready transcribe jobs r = refl
delayed-with_ready summarize jobs r = refl

delayed-moved : (j : Job) (w : World) → (moved j w).redis.delayed ≡ without j w.redis.delayed
delayed-moved j w = delayed-with_ready j.type _ (with_delayed (without j w.redis.delayed) w.redis)

move_all-pushed :
    (js : List Job) (w : World)
    → w.faults ≡ []
    → Present js w.redis.delayed
    → (move_all js w).1.redis ≡ pushed js (with_delayed (removed js w.redis.delayed) w.redis)
unfolding move_all pure move_due logged ◌>>=◌
move_all-pushed [] w f p = refl
move_all-pushed (j ∷ js) w f p = rw (move_due-moves j w f p.0) (
    move_all-pushed js (moved j w) refl (rw (delayed-moved j w) p.1)
    ∙ ap (λ l. pushed js (with_delayed (removed js l) (moved j w).redis)) (delayed-moved j w)
    ∙ pushed-with_delayed j js (removed js (without j w.redis.delayed)) w)

fetched :
    (w : World)
    → w.faults ≡ []
    → due_delayed ((now w).1.clock / second) (now w).1
      ≡ (ok (due_jobs ((now w).1.clock / second) w.redis.delayed), record (now w).1 { faults = [] })
unfolding due_delayed request now
fetched w f = ground arith

-- Where nothing fails and the members of the delayed set are different, a tick moves just the members
-- whose moment, in whole seconds, has come to the ready lists of their types, each once and in the
-- order of the set, and leaves the others.
pub drain_delayed-pushed :
    (w : World)
    → w.faults ≡ []
    → Distinct w.redis.delayed
    → let t = (now w).1.clock / second in
      (drain_delayed w).1.redis
      ≡ pushed
          (due_jobs t w.redis.delayed)
          (record w.redis { delayed = remaining t w.redis.delayed })
unfolding drain_delayed logged now ◌>>=◌
drain_delayed-pushed w f d =
    let t = (now w).1.clock / second in
    rw (fetched w f) (
      move_all-pushed (due_jobs t w.redis.delayed) (record (now w).1 { faults = [] }) refl
        (due_jobs-Present t w.redis.delayed d)
      ∙ ap (λ l. pushed (due_jobs t w.redis.delayed) (with_delayed l w.redis))
          (removed-due_jobs t w.redis.delayed d))
