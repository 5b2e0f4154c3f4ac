-- ===== src/Redis/Reads.antt =====
-- Code that only reads Redis, and the methods of data/redis.go that do.
use content_service.Prelude.{◌≡◌, refl, ◌∙◌, String, Bool, Option, none, some, Map, if◌then◌else◌}
use content_service.Go.{GoError, Result, Exec, pure, raise, lift, ◌>>=◌, on_error, inspect}
use content_service.Go.Inversion.{
  Along, IsPreorder, Along-bind, Along-lift, Along-raise, Along-pure, Along-on_error, Along-inspect,
  Along-if,
}
use content_service.Redis.{RedisServer}
use content_service.Redis.Client.{
  get_parcel_information_from_collection, collection_of, typed_metadata, get_parcel_metadata,
  get_parcel_content, get_parcel_cid, get_scene_cid, get_root_cid, found_or_nil,
}

module _ {S : Type 0} (srv : RedisServer S) where
  open srv use {value_at}

  abbrev pub SameKeys : S → S → Type 0
  SameKeys s t = value_at t ≡ value_at s

  same_keys : IsPreorder SameKeys
  same_keys = record { same = λ s. refl; trans = λ s t u h k. k ∙ h }

  abbrev pub Reads : {A : Type 0} → Exec S A → Type 0
  Reads m = Along SameKeys m

  module _ {A B : Type 0} where
    pub bind-Reads :
        {m : Exec S A} {f : A → Exec S B} → Reads m → ((a : A) → Reads (f a)) → Reads (m >>= f)
    bind-Reads h k = Along-bind SameKeys same_keys _ _ h k

    pub inspect-Reads :
        {m : Exec S A} {f : Result A → Exec S B}
        → Reads m
        → ((x : Result A) → Reads (f x))
        → Reads (inspect m f)
    inspect-Reads h k = Along-inspect SameKeys same_keys _ _ h k

  module _ {A : Type 0} where
    pub pure-Reads : {a : A} → Reads (pure {S = S} a)
    pure-Reads {a} = Along-pure SameKeys same_keys a

    pub lift-Reads : {r : Result A} → Reads (lift {S = S} r)
    lift-Reads {r} = Along-lift SameKeys same_keys r

    pub raise-Reads : {e : GoError} → Reads (raise {S = S} {A = A} e)
    raise-Reads {e} = Along-raise SameKeys same_keys e

    pub on_error-Reads :
        {m : Exec S A} {f : GoError → Exec S A}
        → Reads m
        → ((e : GoError) → Reads (f e))
        → Reads (on_error m f)
    on_error-Reads h k = Along-on_error SameKeys same_keys _ _ h k

    pub if-Reads : (b : Bool) {m n : Exec S A} → Reads m → Reads n → Reads (if b then m else n)
    if-Reads b h k = Along-if SameKeys same_keys b _ _ h k

  pub get-Reads : (k : String) → Reads (srv.get k)
  get-Reads k = record { at = srv.get_reads k }

  pub hget_all-Reads : (k : String) → Reads (srv.hget_all k)
  hget_all-Reads k = record { at = srv.hget_all_reads k }

  pub sis_member-Reads : (k x : String) → Reads (srv.sis_member k x)
  sis_member-Reads k x = record { at = srv.sis_member_reads k x }

  pub lrange_all-Reads : (k : String) → Reads (srv.lrange_all k)
  lrange_all-Reads k = record { at = srv.lrange_all_reads k }

  pub collection_of-Reads :
      (prefix : String) (o : Option String) → Reads (collection_of srv prefix o)
  collection_of-Reads prefix none = pure-Reads
  collection_of-Reads prefix (some cid) = bind-Reads (hget_all-Reads _) (λ h. pure-Reads)

  pub collection-Reads :
      (pid prefix : String) → Reads (get_parcel_information_from_collection srv pid prefix)
  unfolding get_parcel_information_from_collection
  collection-Reads pid prefix = bind-Reads (get-Reads pid) (λ o. collection_of-Reads prefix o)

  pub typed_metadata-Reads : (o : Option (Map String)) → Reads (typed_metadata srv o)
  typed_metadata-Reads none = pure-Reads
  typed_metadata-Reads (some m) = bind-Reads lift-Reads (λ fields. pure-Reads)

  pub get_parcel_metadata-Reads : (pid : String) → Reads (get_parcel_metadata srv pid)
  unfolding get_parcel_metadata
  get_parcel_metadata-Reads pid = bind-Reads (collection-Reads pid _) (λ o. typed_metadata-Reads o)

  pub get_parcel_content-Reads : (pid : String) → Reads (get_parcel_content srv pid)
  unfolding get_parcel_content
  get_parcel_content-Reads pid = on_error-Reads (collection-Reads pid _) (λ e. pure-Reads)

  pub get_parcel_cid-Reads : (pid : String) → Reads (get_parcel_cid srv pid)
  unfolding get_parcel_cid
  get_parcel_cid-Reads pid = bind-Reads (get-Reads pid) (λ o. pure-Reads)

  pub found_or_nil-Reads : (o : Option String) → Reads (found_or_nil srv o)
  found_or_nil-Reads none = raise-Reads
  found_or_nil-Reads (some cid) = pure-Reads

  pub get_scene_cid-Reads : (cid : String) → Reads (get_scene_cid srv cid)
  unfolding get_scene_cid
  get_scene_cid-Reads cid = bind-Reads (get-Reads _) (λ o. found_or_nil-Reads o)

  pub get_root_cid-Reads : (cid : String) → Reads (get_root_cid srv cid)
  unfolding get_root_cid
  get_root_cid-Reads cid = bind-Reads (get-Reads _) (λ o. found_or_nil-Reads o)
