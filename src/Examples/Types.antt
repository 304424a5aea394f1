-- ===== src/Examples/Types.antt =====
-- src/system.rs: the life of a system with one counter, which has served one message.
use actinium_actor.Prelude.{◌≡◌, refl, inl, arith, some, zero, suc, [], ◌∷◌, false}
use actinium_actor.HashMap.{get, insert}
use actinium_actor.Actor.{Addr}
use actinium_actor.Actor.Exec.{new, exec}
use actinium_actor.Actor.Call.{call_dispatch, finish_handle}
use actinium_actor.System.{ActorSystem, new_system, spawn}
use actinium_actor.System.Typing.{Borrows, Given, Life, begins, spawns, assign, Life-casts}
use actinium_actor.Examples.Systems.{types, counters, add, asks, env, cell}

counters-Borrows : Borrows counters
unfolding exec
counters-Borrows actor zero ctx e = refl
counters-Borrows actor (suc zero) ctx e = tt
counters-Borrows actor (suc (suc m)) ctx e = refl

abbrev one : ActorSystem types
one = record { actors = (1, cell 10) ∷ []; rx = 7; tx = some 7; next_id = 2; running = false }

abbrev counter_addr : Addr types
counter_addr = record { actor_id = 1; tx = 7; kind = 0 }

one-Life : Life counters (assign counters 1 0 (λ a. 0)) (counter_addr ∷ []) one
unfolding new_system spawn exec insert
one-Life =
    spawns (λ a. 0) [] (new_system 7) one 10 env env counter_addr (begins (λ a. 0) 7) (omega arith)
      refl

Life-casts_example :
    (call_dispatch counters (asks 1 4).dispatch 10 (new 1) env
      ≡ finish_handle counters (some 5) (exec counters (add 10 4) (new 1) env))
    × (counters.type_of 10 ≡ 0)
    × ((cell 10).on_stop ≡ 0)
unfolding get assign Given new_system
Life-casts_example =
    Life-casts counters (assign counters 1 0 (λ a. 0)) (counter_addr ∷ []) one counter_addr
      (asks 1 4) (cell 10) (new 1) env counters-Borrows one-Life (inl refl) refl refl refl
