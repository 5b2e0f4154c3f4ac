-- ===== src/Redis.antt =====
-- The Redis server that data/redis.go talks to, as a parameter: the commands that the client sends
-- (Get, Set, Del, HSet, HMSet, HGetAll, SAdd, SIsMember, LPush, LRange) and what their
-- documentation says of a command that succeeds. `S` is the world state, `value_at` the server's
-- one keyspace. A command may fail at any time; what a failed write leaves behind is not assumed.
pub mod Client
pub mod Keys
pub mod Scenes
pub mod Ownership
pub mod Overlap
pub mod Types
pub mod Reads
pub mod Answering
use content_service.Prelude.{
  ◌≡◌, String, Bool, List, [], ◌∷◌, ◌++◌, reverse, Option, none, some, ◌==◌, if◌then◌else◌, Map,
  lookup, insert, contains,
}
use content_service.Go.{ok, Exec}
use content_service.Prelude.Entries.{HasUniqueKeys}
use mathlib.Core.Option

-- A Redis value: a string, a hash, a set or a list.
pub data Value : Type 0 where
  str : String → Value
  hash : Map String → Value
  set : List String → Value
  list : List String → Value

-- The value that a hash, set or list command works on: a missing key is an empty one, and a value
-- of another type is WRONGTYPE, `none`.
abbrev pub hash_of : Option Value → Option (Map String)
hash_of none = some []
hash_of (some (hash h)) = some h
hash_of (some _) = none

abbrev pub set_of : Option Value → Option (List String)
set_of none = some []
set_of (some (set xs)) = some xs
set_of (some _) = none

abbrev pub list_of : Option Value → Option (List String)
list_of none = some []
list_of (some (list xs)) = some xs
list_of (some _) = none

abbrev pub insert_all : Map String → Map String → Map String
insert_all [] h = h
insert_all ((k, v) ∷ m) h = insert_all m (insert k v h)

pub record RedisServer (S : Type 0) : Type 0 where
  pub value_at : S → String → Option Value
  pub get : String → Exec S (Option String)
  pub set : String → String → Exec S Unit
  pub del : String → Exec S Unit
  pub hset : String → String → String → Exec S Unit
  pub hmset : String → Map String → Exec S Unit
  pub hget_all : String → Exec S (Map String)
  pub sadd : String → String → Exec S Unit
  pub sis_member : String → String → Exec S Bool
  pub lpush : String → List String → Exec S Unit
  pub lrange_all : String → Exec S (List String)
  -- Reading changes no key.
  pub get_reads : (k : String) (s : S) → value_at (get k s).1 ≡ value_at s
  pub hget_all_reads : (k : String) (s : S) → value_at (hget_all k s).1 ≡ value_at s
  pub sis_member_reads : (k x : String) (s : S) → value_at (sis_member k x s).1 ≡ value_at s
  pub lrange_all_reads : (k : String) (s : S) → value_at (lrange_all k s).1 ≡ value_at s
  -- Replies; a missing string is `redis.Nil`, `none` here.
  pub get_ok :
      (k : String) (s t : S) (r : Option String)
      → get k s ≡ (ok r, t)
      → value_at s k ≡ Option.map str r
  pub hget_all_ok :
      (k : String) (s t : S) (h : Map String)
      → hget_all k s ≡ (ok h, t)
      → (g : Map String) × (hash_of (value_at s k) ≡ some g)
        × ((f : String) → lookup f h ≡ lookup f g)
        × HasUniqueKeys h
  pub sis_member_ok :
      (k x : String) (s t : S) (b : Bool)
      → sis_member k x s ≡ (ok b, t)
      → (xs : List String) × (set_of (value_at s k) ≡ some xs) × (b ≡ contains x xs)
  pub lrange_all_ok :
      (k : String) (s t : S) (xs : List String)
      → lrange_all k s ≡ (ok xs, t)
      → list_of (value_at s k) ≡ some xs
  -- Writes.
  pub set_ok :
      (k v : String) (s t : S)
      → set k v s ≡ (ok tt, t)
      → (j : String) → value_at t j ≡ (if k == j then some (str v) else value_at s j)
  pub del_ok :
      (k : String) (s t : S)
      → del k s ≡ (ok tt, t)
      → (j : String) → value_at t j ≡ (if k == j then none else value_at s j)
  pub hset_ok :
      (k f v : String) (s t : S)
      → hset k f v s ≡ (ok tt, t)
      → (h : Map String) × (hash_of (value_at s k) ≡ some h)
        × ((j : String)
            → value_at t j ≡ (if k == j then some (hash (insert f v h)) else value_at s j))
  pub hmset_ok :
      (k : String) (m : Map String) (s t : S)
      → hmset k m s ≡ (ok tt, t)
      → (h : Map String) × (hash_of (value_at s k) ≡ some h)
        × ((j : String)
            → value_at t j ≡ (if k == j then some (hash (insert_all m h)) else value_at s j))
  pub sadd_ok :
      (k x : String) (s t : S)
      → sadd k x s ≡ (ok tt, t)
      → (xs : List String) × (set_of (value_at s k) ≡ some xs)
        × ((j : String)
            → value_at t j ≡ (if k == j then some (Value.set (x ∷ xs)) else value_at s j))
  pub lpush_ok :
      (k : String) (ps : List String) (s t : S)
      → lpush k ps s ≡ (ok tt, t)
      → (xs : List String) × (list_of (value_at s k) ≡ some xs)
        × ((j : String)
            → value_at t j ≡ (if k == j then some (list (reverse ps ++ xs)) else value_at s j))
