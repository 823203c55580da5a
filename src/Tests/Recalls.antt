-- ===== src/Tests/Recalls.antt =====
-- Ephemeral memories: a user in a channel and in a thread, and another user.
use gopherbot.Prelude.{◌≡◌, refl, true, false, some, [], ◌∷◌, ◌≢◌, inr}
use mathlib.Core.Bool.{false≢true}
use gopherbot.Prelude.Bytes.{codes, bytes_eq, bytes_eq_iff}
use gopherbot.Prelude.Assoc.{lookup}
use gopherbot.Ephemeral.{
  Text, Context, Memories, Incoming, Robot, find, remember, recall, user_of, expire_memories,
}
use gopherbot.Ephemeral.Recalls.{recall-remember-Apart, recall-remember_shared}
use gopherbot.Ephemeral.Sweep.{Kept, expire_memories-find}

abbrev same : Text → Text
same t = t

abbrev message : Incoming
message = record {
  threaded = false;
  thread = codes "0x1";
  user = codes "alice";
  protocol = codes "ssh";
}

abbrev alice : Robot
alice = record {
  incoming = some message;
  user = codes "alice";
  channel = codes "general";
  fallback = codes "ssh";
}

abbrev bob : Robot
bob = record alice { user = codes "bob" }

abbrev nothing : Memories
nothing = record { m = []; dirty = false }

users_differ : user_of same same alice ≢ user_of same same bob
unfolding bytes_eq
users_differ e = false≢true ((bytes_eq_iff (codes "alice") (codes "bob")).1 e)

recall-remember-Apart_example :
    recall same same bob
      (codes "it")
      false
      (remember same same alice 3 (codes "it") (codes "the server") false nothing)
    ≡ recall same same bob (codes "it") false nothing
recall-remember-Apart_example =
    recall-remember-Apart same same alice bob 3 (codes "it") (codes "it") (codes "the server") false
      false nothing (inr (inr (refl, refl, users_differ)))

recall-remember_shared_example :
    recall same same bob
      (codes "it")
      true
      (remember same same alice 3 (codes "it") (codes "the server") true nothing)
    ≡ codes "the server"
recall-remember_shared_example =
    recall-remember_shared same same alice bob 3 (codes "it") (codes "the server") nothing refl
      (λ e. absurd cc) refl refl

abbrev topic : Context
topic = record {
  key = codes "it";
  user = codes "alice";
  channel = codes "general";
  thread = [];
  protocol = [];
}

abbrev stored : Memories
stored = record { m = (topic, record { memory = codes "x"; timestamp = 0 }) ∷ []; dirty = false }

expire_memories-find_example :
    Kept 900000000000 topic
      (find topic stored.m)
      (find topic (expire_memories 900000000000 stored).m)
expire_memories-find_example =
    expire_memories-find 900000000000 stored topic (unfold lookup in (refl, tt))
