-- ===== src/Console/Recording.antt =====
-- What a worker records of the messages that it gets.
use actinium_actor.Prelude.{
  ℕ, zero, suc, ◌+◌, ◌%◌, ◌^◌, ◌≡◌, refl, sym, subst, ap, ◌∙◌, false, List, [], ◌∷◌, length,
  length-append, get_elem?, ◌==◌, arith, ◌<◌,
}
use actinium_actor.HashMap.Laws.{get-insert}
use actinium_actor.Outcome.{Returns, Returns->>=}
use actinium_actor.Text.{Text}
use actinium_actor.StateMachine.Cycle.{Valid, handle_all, cycle, in_state, handle_all-cycle}
use actinium_actor.Console.{
  WorkerState, idle, receiving, processing, debug, WorkerInfo, WorkerActor, World, info_of,
}
use actinium_actor.Console.Worker.{Shared, handle_in_state, worker_handler, recorded, WorkerSm}

-- The states of the positions below 3.
pub state_at : ℕ → WorkerState
state_at zero = idle
state_at (suc zero) = receiving
state_at (suc (suc i)) = processing

-- The last of the messages, and `msg` where there is none.
pub latest : {A : Type 0} → A → List A → A
latest msg [] = msg
latest msg (x ∷ xs) = latest x xs

-- The print of the state in which the last of `count` messages from number `n` on is handled, and
-- `current` where there is none.
pub last_state : ℕ → ℕ → Text → Text
unfolding state_at
last_state n zero current = current
last_state n (suc k) current = debug (state_at ((n + k) % 3))

in_state-recorded :
    (i : ℕ) (msg : Text) (actor : WorkerActor) (s : Shared)
    → i < 3
    → in_state worker_handler (get_elem? worker_handler.state_sequence i) i msg actor s
      ≡ handle_in_state i (state_at i) msg actor s
unfolding in_state state_at
in_state-recorded zero msg actor s lt = refl
in_state-recorded (suc zero) msg actor s lt = refl
in_state-recorded (suc (suc zero)) msg actor s lt = refl
in_state-recorded (suc (suc (suc i))) msg actor s lt = absurd (omega arith)

-- The shared cells before and after the messages.
pub record Recorded (n : ℕ) (msgs : List Text) (actor : WorkerActor) (before after : World)
    : Type 0 where
  pub name : (info_of after actor.info).name ≡ (info_of before actor.info).name
  pub count :
      (info_of after actor.info).msg_count ≡ (info_of before actor.info).msg_count + length msgs
  pub last : (info_of after actor.info).last_msg ≡ latest (info_of before actor.info).last_msg msgs
  pub state :
      (info_of after actor.info).current_state
      ≡ last_state n (length msgs) (info_of before actor.info).current_state
  pub others : (k : ℕ) → (actor.info == k) ≡ false → info_of after k ≡ info_of before k
  pub log : length after.log ≡ length before.log + length msgs
  pub registry : after.registry ≡ before.registry

one_message :
    (i : ℕ) (state : WorkerState) (msg : Text) (actor : WorkerActor) (s : Shared)
    → Returns (handle_in_state i state msg actor s) (λ x.
      (x.0 ≡ actor)
      × (info_of x.2.0 actor.info ≡ recorded state msg (info_of s.0 actor.info))
      × ((k : ℕ) → (actor.info == k) ≡ false → info_of x.2.0 k ≡ info_of s.0 k)
      × (length x.2.0.log ≡ suc (length s.0.log))
      × (x.2.0.registry ≡ s.0.registry))
unfolding handle_in_state info_of
one_message i state msg actor (w, id) =
    let info = recorded state msg (info_of w actor.info) in
    (
      refl,
      ground (arith, get-insert actor.info info w.infos actor.info),
      λ k h. ground (arith, get-insert actor.info info w.infos k),
      omega (arith, length-append w.log),
      refl,
    )

count_more : (a b z k : ℕ) → a + 1 < 2 ^ 64 → b ≡ (a + 1) % 2 ^ 64 → z ≡ b + k → z ≡ a + suc k
count_more a b z k lt e e' = omega arith

plus_zero : (n : ℕ) → n ≡ n + 0
plus_zero n = omega arith

plus_suc : (n k : ℕ) → n + 1 + k ≡ n + suc k
plus_suc n k = omega arith

last_state-suc :
    (n k : ℕ) (current : Text)
    → last_state (n + 1) k (debug (state_at (n % 3))) ≡ last_state n (suc k) current
unfolding last_state
last_state-suc n zero current = ap (λ i. debug (state_at (i % 3))) (plus_zero n)
last_state-suc n (suc k) current = ap (λ i. debug (state_at (i % 3))) (plus_suc n k)

Recorded-cons :
    (n : ℕ) (msg : Text) (msgs : List Text) (actor : WorkerActor) (a b z : World)
    → (info_of a actor.info).msg_count + 1 < 2 ^ 64
    → info_of b actor.info ≡ recorded (state_at (n % 3)) msg (info_of a actor.info)
    → ((k : ℕ) → (actor.info == k) ≡ false → info_of b k ≡ info_of a k)
    → length b.log ≡ suc (length a.log)
    → b.registry ≡ a.registry
    → Recorded (n + 1) msgs actor b z
    → Recorded n (msg ∷ msgs) actor a z
unfolding latest
Recorded-cons n msg msgs actor a b z lt info others log registry r = record {
  name = r.name ∙ ap (λ (i : WorkerInfo). i.name) info;
  count = count_more _ _ _ (length msgs) lt (ap (λ (i : WorkerInfo). i.msg_count) info) r.count;
  last = r.last ∙ ap (λ (i : WorkerInfo). latest i.last_msg msgs) info;
  state =
      r.state
      ∙ ap (λ (i : WorkerInfo). last_state (n + 1) (length msgs) i.current_state) info
      ∙ last_state-suc n (length msgs) (info_of a actor.info).current_state;
  others = λ k h. r.others k h ∙ others k h;
  log = omega (arith, r.log);
  registry = r.registry ∙ registry;
}

-- The bound of the count holds for the messages that are left.
fewer :
    (actor' actor : WorkerActor) (w : World) (state : WorkerState) (msg : Text) (info : WorkerInfo)
    (k : ℕ)
    → actor' ≡ actor
    → info_of w actor.info ≡ recorded state msg info
    → info.msg_count + suc k < 2 ^ 64
    → (info_of w actor'.info).msg_count + k < 2 ^ 64
fewer actor' actor w state msg info k same e lt =
    subst (λ (a : WorkerActor). (info_of w a.info).msg_count + k < 2 ^ 64) (sym same)
      (less _ info.msg_count k (ap (λ (i : WorkerInfo). i.msg_count) e) lt)
  where
    less : (b a k : ℕ) → b ≡ (a + 1) % 2 ^ 64 → a + suc k < 2 ^ 64 → b + k < 2 ^ 64
    less b a k e lt = omega arith

cycle-Recorded :
    (msgs : List Text) (n : ℕ) (actor : WorkerActor) (s : Shared)
    → (info_of s.0 actor.info).msg_count + length msgs < 2 ^ 64
    → Returns (cycle worker_handler n msgs actor s) (λ x. Recorded n msgs actor s.0 x.2.0)
unfolding cycle latest last_state
cycle-Recorded [] n actor s lt = record {
  name = refl;
  count = omega arith;
  last = refl;
  state = refl;
  others = λ k h. refl;
  log = omega arith;
  registry = refl;
}
cycle-Recorded (msg ∷ msgs) n actor s lt =
    rw (in_state-recorded (n % 3) msg actor s (omega arith)) (
      Returns->>= (handle_in_state (n % 3) (state_at (n % 3)) msg actor s) _ _ _
        (one_message (n % 3) (state_at (n % 3)) msg actor s)
        (λ x h.
          Returns->>= (cycle worker_handler (n + 1) msgs x.0 x.2)
            (λ y. Recorded (n + 1) msgs x.0 x.2.0 y.2.0) _ _
            (cycle-Recorded msgs (n + 1) x.0 x.2 (
              fewer x.0 actor _ (state_at (n % 3)) msg (info_of s.0 actor.info) (length msgs) h.0
                h.1 lt))
            (λ y r.
              Recorded-cons n msg msgs actor s.0 x.2.0 y.2.0 (omega (arith, lt)) h.1 h.2 h.3 h.4
                (subst (λ a. Recorded (n + 1) msgs a x.2.0 y.2.0) h.0 r))))

-- A worker at the start of its cycle, whose count of messages does not come to 2^64, handles any
-- messages without a panic: its info keeps its name, counts them, and has the last of them and the
-- state that it was handled in, by its number modulo 3, or what it had where there is none; the infos
-- of the other workers and the registry stay, and the log has one entry more for each message.
pub handle_all-Recorded :
    (msgs : List Text) (sm : WorkerSm) (s : Shared)
    → Valid worker_handler sm
    → sm.current ≡ 0
    → (info_of s.0 sm.inner.info).msg_count + length msgs < 2 ^ 64
    → Returns (handle_all worker_handler msgs sm s) (λ x. Recorded 0 msgs sm.inner s.0 x.2.0)
handle_all-Recorded msgs sm s v e lt = rw (handle_all-cycle worker_handler msgs 0 sm s v e) (
    Returns->>= (cycle worker_handler 0 msgs sm.inner s) (λ x. Recorded 0 msgs sm.inner s.0 x.2.0) _
      _ (cycle-Recorded msgs 0 sm.inner s lt) (λ x r. r))
