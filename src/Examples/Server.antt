-- ===== src/Examples/Server.antt =====
-- A Redis server whose keyspace is a function, with every command of the interface.
use mathlib.Core.Option
use content_service.Prelude.{
  ◌≡◌, refl, sym, ap, String, Bool, List, ◌∷◌, ◌++◌, reverse, Option, none, some, ◌==◌,
  if◌then◌else◌, insert, contains,
}
use content_service.Prelude.{Map, lookup}
use content_service.Prelude.Entries.{
  HasUniqueKeys, first_entries, first_entries-HasUniqueKeys, lookup-first_entries,
}
use content_service.Go.{plain, ok, err, Exec}
use content_service.Redis.{
  Value, str, hash, list, RedisServer, hash_of, set_of, list_of, insert_all,
}
use content_service.Redis.Scenes.{Keyspace}

abbrev write : String → Value → Keyspace → Keyspace
write k v d j = if k == j then some v else d j

abbrev pub read : {A : Type 0} → Option A → Exec Keyspace A
read none d = (err (plain "WRONGTYPE"), d)
read (some a) d = (ok a, d)

abbrev edit : {A : Type 0} → Option A → (A → Value) → String → Exec Keyspace Unit
edit none f k d = (err (plain "WRONGTYPE"), d)
edit (some a) f k d = (ok tt, write k (f a) d)

abbrev pub string_of : Option Value → Option (Option String)
string_of none = some none
string_of (some (str v)) = some (some v)
string_of (some _) = none

pub read-state : {A : Type 0} (o : Option A) (d : Keyspace) → (read o d).1 ≡ d
read-state none d = refl
read-state (some a) d = refl

pub read_ok :
    {A : Type 0} (o : Option A) (d e : Keyspace) (a : A) → read o d ≡ (ok a, e) → o ≡ some a
read_ok none d e a h = cc
read_ok (some b) d e a h = cc

pub edit_ok :
    {A : Type 0} (o : Option A) (f : A → Value) (k : String) (d e : Keyspace)
    → edit o f k d ≡ (ok tt, e)
    → (a : A) × (o ≡ some a) × ((j : String) → e j ≡ (if k == j then some (f a) else d j))
edit_ok none f k d e h = cc
edit_ok (some a) f k d e h = (a, refl, λ j. ap (λ x. x.1 j) (sym h))

pub string_of-map :
    (v : Option Value) (r : Option String) → string_of v ≡ some r → v ≡ Option.map str r
string_of-map none none h = refl
string_of-map none (some x) h = cc
string_of-map (some (str v)) none h = cc
string_of-map (some (str v)) (some x) h = cc
string_of-map (some (hash m)) r h = cc
string_of-map (some (Value.set xs)) r h = cc
string_of-map (some (list xs)) r h = cc

pub sis_member-found :
    (x : String) (o : Option (List String)) (b : Bool)
    → Option.map (contains x) o ≡ some b
    → (xs : List String) × (o ≡ some xs) × (b ≡ contains x xs)
sis_member-found x none b h = cc
sis_member-found x (some xs) b h = (xs, refl, cc)

pub hget_all-found :
    (o : Option (Map String)) (h : Map String)
    → Option.map first_entries o ≡ some h
    → (g : Map String) × (o ≡ some g) × ((f : String) → lookup f h ≡ lookup f g) × HasUniqueKeys h
hget_all-found none h e = cc
hget_all-found (some g) h e =
    let same : first_entries g ≡ h = cc in
    (
      g,
      refl,
      λ f. rw (← same) (lookup-first_entries f g),
      rw (← same) (first_entries-HasUniqueKeys g),
    )

abbrev pub server : RedisServer Keyspace
server = record {
  value_at = λ d. d;
  get = λ k d. read (string_of (d k)) d;
  set = λ k v d. (ok tt, write k (str v) d);
  del = λ k d. (ok tt, λ j. if k == j then none else d j);
  hset = λ k f v d. edit (hash_of (d k)) (λ h. hash (insert f v h)) k d;
  hmset = λ k m d. edit (hash_of (d k)) (λ h. hash (insert_all m h)) k d;
  hget_all = λ k d. read (Option.map first_entries (hash_of (d k))) d;
  sadd = λ k x d. edit (set_of (d k)) (λ xs. Value.set (x ∷ xs)) k d;
  sis_member = λ k x d. read (Option.map (contains x) (set_of (d k))) d;
  lpush = λ k ps d. edit (list_of (d k)) (λ xs. list (reverse ps ++ xs)) k d;
  lrange_all = λ k d. read (list_of (d k)) d;
  get_reads = λ k d. read-state (string_of (d k)) d;
  hget_all_reads = λ k d. read-state (Option.map first_entries (hash_of (d k))) d;
  sis_member_reads = λ k x d. read-state (Option.map (contains x) (set_of (d k))) d;
  lrange_all_reads = λ k d. read-state (list_of (d k)) d;
  get_ok = λ k d e r h. string_of-map (d k) r (read_ok (string_of (d k)) d e r h);
  hget_all_ok = λ k d e h q. hget_all-found (hash_of (d k)) h (read_ok _ d e h q);
  sis_member_ok = λ k x d e b q. sis_member-found x (set_of (d k)) b (read_ok _ d e b q);
  lrange_all_ok = λ k d e xs q. read_ok (list_of (d k)) d e xs q;
  set_ok = λ k v d e h j. ap (λ x. x.1 j) (sym h);
  del_ok = λ k d e h j. ap (λ x. x.1 j) (sym h);
  hset_ok = λ k f v d e h. edit_ok (hash_of (d k)) _ k d e h;
  hmset_ok = λ k m d e h. edit_ok (hash_of (d k)) _ k d e h;
  sadd_ok = λ k x d e h. edit_ok (set_of (d k)) _ k d e h;
  lpush_ok = λ k ps d e h. edit_ok (list_of (d k)) _ k d e h;
}
