-- ===== src/MemBrain.antt =====
-- bot/membrain.go: the brain in memory, which is the default provider of the brain loop. The bytes are
-- those that the pointer of a Store has: the engine hands over the slice that its cipher has made,
-- and changes it no more.
pub mod Reads
use gopherbot.Prelude.{
  String, Bool, true, false, Option, none, some, List, [], ◌∷◌, String_discrete,
}
use gopherbot.Prelude.Assoc.{lookup, insert, delete}
use gopherbot.Brain.Datum.{Bytes, Retrieved, found, missing, Deleted, deleted}

-- `memBrain`
abbrev pub MemBrain : Type 0
MemBrain = List (String × Bytes)

abbrev pub retrieved : Option Bytes → Retrieved
retrieved none = missing
retrieved (some d) = found d

-- `Retrieve`, which never fails
unfoldable pub retrieve : MemBrain → String → Retrieved
retrieve m k = retrieved (lookup String_discrete k m)

-- `Store`: it always goes well.
unfoldable pub store : MemBrain → String → Bytes → Bool × MemBrain
store m k d = (true, insert String_discrete k d m)

-- `Delete`, of a key that is there or not
unfoldable pub remove : MemBrain → String → Deleted × MemBrain
remove m k = (deleted, delete String_discrete k m)

-- `List`, in the order of the association list
unfoldable pub list : MemBrain → List String
list [] = []
list ((k, d) ∷ m) = k ∷ list m
