-- ===== src/Tests/Threads.antt =====
-- Subscriptions: two plugins, and threads of two protocols.
use gopherbot.Prelude.{◌≡◌, refl, true, false, none, some, [], ◌∷◌, ◌≢◌}
use mathlib.Core.Bool.{false≢true}
use gopherbot.Prelude.Bytes.{codes, bytes_eq, bytes_eq_iff, has_prefix}
use gopherbot.Prelude.Assoc.{lookup}
use gopherbot.Subscriptions.{
  Text, Matcher, Subscriber, Table, Subs, Caller, find, subscribe, unsubscribe,
  expire_subscriptions, marshal_key, unmarshal_key, cut,
}
use gopherbot.Subscriptions.Calls.{subscribe_keeps, unsubscribe_keeps}
use gopherbot.Subscriptions.Expiry.{Kept, expire_subscriptions-find}
use gopherbot.Subscriptions.Keys.{unmarshal-marshal_key}

abbrev thread : Matcher
thread = record { protocol = codes "slack"; channel = codes "general"; thread = codes "0x1" }

abbrev poll : Subscriber
poll = record { plugin = codes "poll"; timestamp = 5 }

abbrev table : Table
table = (thread, poll) ∷ []

abbrev subs : Subs
subs = record { m = table; dirty = false }

abbrev dice : Caller
dice = record {
  protocol = codes "slack";
  channel = codes "general";
  thread = codes "0x1";
  task = codes "dice";
  is_plugin = true;
}

abbrev elsewhere : Caller
elsewhere = record dice { thread = codes "0x2" }

abbrev same : Text → Text
same t = t

dice_is_not_poll : codes "dice" ≢ codes "poll"
unfolding bytes_eq
dice_is_not_poll e = false≢true ((bytes_eq_iff (codes "dice") (codes "poll")).1 e)

held : find thread table ≡ some poll
unfolding lookup bytes_eq
held = refl

subscribe_keeps_example : find thread (subscribe 9 dice subs).1.m ≡ some poll
subscribe_keeps_example = subscribe_keeps dice subs thread poll held dice_is_not_poll 9

unsubscribe_keeps_example : find thread (unsubscribe dice subs).1.m ≡ some poll
unsubscribe_keeps_example = unsubscribe_keeps dice subs thread poll held dice_is_not_poll

answers_true : (subscribe 9 elsewhere subs).0 ≡ true
unfolding subscribe lookup bytes_eq
answers_true = refl

expire_subscriptions-find_example :
    Kept 700000000000000
      (find thread table)
      (find thread (expire_subscriptions 700000000000000 subs).2.m)
expire_subscriptions-find_example =
    expire_subscriptions-find 700000000000000 subs thread (unfold lookup in (refl, tt))

slack_whole : cut (codes "slack") ≡ none
unfolding cut has_prefix
slack_whole = refl

general_whole : cut (codes "general") ≡ none
unfolding cut has_prefix
general_whole = refl

unmarshal-marshal_key_example : unmarshal_key same same (marshal_key thread) ≡ some thread
unmarshal-marshal_key_example =
    unmarshal-marshal_key same same thread refl slack_whole general_whole
