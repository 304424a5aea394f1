-- ===== src/Runtime/Placement.antt =====
-- Where the runtime puts its actors, and what its workers start with.
use actinium_actor.Prelude.{
  ℕ, zero, suc, ◌+◌, ◌%◌, ◌^◌, ◌<◌, ◌≤◌, ◌≡◌, refl, ap, ◌∙◌, true, false, some, List, [], ◌∷◌,
  contains, get_elem?, length, arith,
}
use actinium_actor.HashMap.{HashMap, get}
use actinium_actor.HashMap.Laws.{get-insert}
use actinium_actor.Outcome.{Returns}
use actinium_actor.Actor.{Types}
use actinium_actor.Actor.Store.{Channel, SpawnShared, Env, allocate_id, pick_worker}
use actinium_actor.Worker.{Worker}
use actinium_actor.Worker.Receive.{Attached}
use actinium_actor.Runtime.{
  range, empty_maps, open_channels, new_worker, start_workers, with_threads, place,
}

pub contains-range : (first n k : ℕ) → first ≤ k → k < first + n → contains (range first n) k ≡ true
unfolding range
contains-range first zero k le lt = absurd (omega arith)
contains-range first (suc n) k le lt = ground (arith, contains-range (first + 1) n k)

pub shifts : (a i : ℕ) → a + 1 + i ≡ a + suc i
shifts a i = omega arith

pub plus_zero : (a : ℕ) → a + 0 ≡ a
plus_zero a = omega arith

pub zero_plus : (a : ℕ) → 0 + a ≡ a
zero_plus a = omega arith

below_wrap : (a : ℕ) → a + 1 < 2 ^ 64 → (a + 1) % 2 ^ 64 ≡ a + 1
below_wrap a lt = omega arith

pub length-empty_maps : (t : Types) (n : ℕ) → length (empty_maps {t = t} n) ≡ n
unfolding empty_maps
length-empty_maps t zero = refl
length-empty_maps t (suc n) = ap suc (length-empty_maps t n)

module _ {t : Types} where
  abbrev pub fresh : Channel t
  fresh = record { queue = []; clients = false; receiver = true }

  pub open_channels-get :
      (first n k : ℕ) (m : HashMap (Channel t))
      → first ≤ k
      → k < first + n
      → get (open_channels first n m) k ≡ some fresh
  unfolding open_channels
  open_channels-get first zero k m le lt = absurd (omega arith)
  open_channels-get first (suc n) k m le lt = ground (
    arith,
    get-insert first fresh (open_channels (first + 1) n m) k,
    open_channels-get (first + 1) n k m,
  )

  get_elem?-start_workers :
      (first idx n i : ℕ)
      → i < n
      → get_elem? (start_workers {t = t} first idx n) i ≡ some (new_worker (first + i) (idx + i))
  unfolding start_workers
  get_elem?-start_workers first idx zero i lt = absurd (omega arith)
  get_elem?-start_workers first idx (suc n) zero lt = rw (plus_zero first, plus_zero idx)
  get_elem?-start_workers first idx (suc n) (suc i) lt =
      rw (← shifts first i, ← shifts idx i)
        (get_elem?-start_workers (first + 1) (idx + 1) n i (omega arith))

  -- On a positive number of threads the runtime starts that many workers, each with its own actor map
  -- and attached to its own channel.
  pub with_threads-Attached :
      (first n i : ℕ) (env : Env t)
      → i < n
      → Returns (with_threads first n env).1 (λ rt.
        (w : Worker t) × (get_elem? rt.handles i ≡ some w)
        × (w.worker_idx ≡ i)
        × (i < length (with_threads first n env).0.shared.actor_maps)
        × Attached w (with_threads first n env).0)
  unfolding with_threads new_worker
  with_threads-Attached first zero i env lt = absurd (omega arith)
  with_threads-Attached first (suc n) i env lt = (
    new_worker (first + i) i,
    get_elem?-start_workers first 0 (suc n) i lt
        ∙ ap (λ j. some (new_worker (first + i) j)) (zero_plus i),
    refl,
    rw (length-empty_maps t (suc n)) lt,
    (
      contains-range first (suc n) (first + i) (omega arith) (omega arith),
      fresh,
      open_channels-get first (suc n) (first + i) env.channels (omega arith) (omega arith),
    ),
  )

  -- The identifiers and the workers of the next spawns.
  unfoldable pub places : ℕ → SpawnShared t → List (ℕ × ℕ)
  places zero s = []
  places (suc k) s = let (p, s') = place s in p ∷ places k s'

  -- Below 2^64 spawns, the identifiers count up from the next one, and the workers take turns.
  pub get_elem?-places :
      (k i : ℕ) (s : SpawnShared t)
      → i < k
      → s.next_id + k < 2 ^ 64
      → s.next_worker + k < 2 ^ 64
      → get_elem? (places k s) i ≡ some (s.next_id + i, (s.next_worker + i) % s.num_workers)
  unfolding places place allocate_id pick_worker
  get_elem?-places zero i s lt a b = absurd (omega arith)
  get_elem?-places (suc k) zero s lt a b = rw (plus_zero s.next_id, plus_zero s.next_worker)
  get_elem?-places (suc k) (suc i) s lt a b =
      rw
        (
          below_wrap s.next_id (omega arith),
          below_wrap s.next_worker (omega arith),
          ← shifts s.next_id i,
          ← shifts s.next_worker i,
        )
        (get_elem?-places k i
          (record s { next_id = s.next_id + 1; next_worker = s.next_worker + 1 }) (omega arith)
          (omega arith) (omega arith))
