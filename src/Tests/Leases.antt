-- ===== src/Tests/Leases.antt =====
-- The brain loop over a provider in memory, with a cipher that only prefixes a nonce.
use gopherbot.Prelude.{
  ℕ, ◌≡◌, refl, String, true, false, some, length, length-replicate, List, [], ◌∷◌, ◌++◌, arith,
  map, replicate, ◌⊎◌,
}
use gopherbot.Prelude.Assoc.{lookup, insert}
use gopherbot.Prelude.Bytes.{hex, is_word, contains}
use gopherbot.Brain.Datum.Secrets.{ready, Reads, get_datum-store_datum}
use gopherbot.RetVal.{ok, datum_not_found, datum_lock_expired}
use gopherbot.Brain.Datum.{Bytes, Env, Vault, found, get_datum, key_valid, store_datum, key_unsafe}
use gopherbot.MemBrain.{MemBrain, retrieve, store, remove}
use gopherbot.MemBrain.Reads.{retrieve-store}
use gopherbot.Brain.Loop.{
  CheckOutRequest, UpdateRequest, Event, check_out, tick, Loop, step, run, init, is_ok,
}
use gopherbot.Brain.View.{grants, arrivals, waiting, view}
use gopherbot.Brain.Moves.{served}
use gopherbot.Brain.Leases.{Inv, init-Inv, step-Inv, run-Inv, answered_in_order}
use gopherbot.Brain.Writes.{Refused, stale_update-Refused}
use gopherbot.Brain.Waiters.{waiter_served}

abbrev env : Env
env = record {
  Store = MemBrain;
  retrieve = retrieve;
  store = store;
  remove = remove;
  key_ok = λ k. true;
  nonce_size = 1;
  seal = λ k n t. t;
  unseal = λ k n t. some t;
  random = λ n size. replicate size n;
}

abbrev vault : Vault env
vault = record {
  brain = some [];
  crypt = record { key = []; initializing = false; initialized = true };
  draws = 17;
}

abbrev asks : ℕ → CheckOutRequest
asks n = record { key = "todo"; rw = true; reply = n }

abbrev events : List Event
events = check_out (asks 1) ∷ check_out (asks 2) ∷ tick ∷ tick ∷ check_out (asks 3) ∷ []

answered_in_order_example :
    map (λ g. g.0) (grants "todo" (run env (init env vault) events).log)
      ++ waiting (view "todo" (run env (init env vault) events))
    ≡ arrivals "todo" events
answered_in_order_example = answered_in_order env vault events "todo"

step-Inv_example : Inv env (step env (init env vault) (check_out (asks 1)))
step-Inv_example = step-Inv env (init env vault) (check_out (asks 1)) (init-Inv env vault)

abbrev one_lease : Loop env
one_lease = run env (init env vault) (check_out (asks 1) ∷ [])

abbrev token : Bytes
token =
    b'1' ∷ b'1' ∷ b'1' ∷ b'1' ∷ b'1' ∷ b'1' ∷ b'1' ∷ b'1' ∷ b'1' ∷ b'1' ∷ b'1' ∷ b'1' ∷ b'1' ∷ b'1'
    ∷ b'1' ∷ b'1' ∷ []

abbrev stale : UpdateRequest
stale = record { key = "todo"; token = b'0' ∷ []; datum = b'x' ∷ []; reply = 4 }

one_lease-granted : grants "todo" one_lease.log ≡ (asks 1, token) ∷ []
unfolding run init retrieve lookup insert get_datum key_valid hex grants is_ok is_word
one_lease-granted = refl

stale_update-Refused_example :
    Refused env one_lease stale datum_not_found ⊎ Refused env one_lease stale datum_lock_expired
stale_update-Refused_example =
    stale_update-Refused env one_lease stale [] (asks 1, token)
      (run-Inv env (check_out (asks 1) ∷ []) (init env vault) (init-Inv env vault))
      one_lease-granted (λ e. cc)

abbrev contended : Loop env
contended = run env (init env vault) (check_out (asks 1) ∷ check_out (asks 2) ∷ [])

contended-waiting : waiting (view "todo" contended) ≡ asks 2 ∷ []
unfolding run init retrieve lookup insert get_datum key_valid hex is_ok is_word
contended-waiting = refl

waiter_served_example :
    (more : List CheckOutRequest) × (served (view "todo" (run env contended (tick ∷ tick ∷ [])))
      ≡ served (view "todo" contended) ++ asks 2 ∷ more)
waiter_served_example =
    waiter_served env (tick ∷ tick ∷ []) contended "todo" (asks 2) []
      (run-Inv env (check_out (asks 1) ∷ check_out (asks 2) ∷ []) (init env vault)
        (init-Inv env vault))
      contended-waiting (omega arith)

env-reads :
    (s : MemBrain) (k : String) (d : Bytes)
    → (env.store s k d).0 ≡ true
    → env.retrieve (env.store s k d).1 k ≡ found d
env-reads = retrieve-store

env-opens : (key nonce text : Bytes) → env.unseal key nonce (env.seal key nonce text) ≡ some text
env-opens key nonce text = refl

env-sized : (n size : ℕ) → length (env.random n size) ≡ size
env-sized n size = length-replicate size n

get_datum-store_datum_example :
    ((store_datum env (ready env env-reads env-opens env-sized [] [] 3) "todo" (b'x' ∷ [])).0 ≡ ok)
    × Reads env env-reads env-opens env-sized
        (get_datum env
          (store_datum env (ready env env-reads env-opens env-sized [] [] 3) "todo" (b'x' ∷ [])).1
          "todo"
          true)
        (b'x' ∷ [])
unfolding store
get_datum-store_datum_example =
    get_datum-store_datum env env-reads env-opens env-sized [] [] 3 "todo" (b'x' ∷ []) true
      (unfold key_valid is_word in refl) (unfold key_unsafe contains in refl) refl refl
