-- ===== src/Redis/Ownership.antt =====
-- Who owns a parcel: the lists of the scenes and the parcels' own keys agree, and SetSceneParcels
-- keeps them so (the comment above it in data/redis.go).
use content_service.Prelude.{
  ◌≡◌, ◌≢◌, ◌==◌, if◌then◌else◌, fun_ext, refl, sym, ap, ◌∙◌, String, true, false, List, [], ◌∷◌,
  ◌++◌, reverse, Option, none, some, ◌==◌, contains, contains-append, contains-reverse, MapRange,
  All, arith, eq_iff, Bool-cases, inl, inr,
}
use content_service.Redis.Keys.{is_parcel_key, starts_number}
use content_service.Go.{ok}
use content_service.Redis.{Value, str, list, list_of, RedisServer}
use content_service.Redis.Client.{set_scene_parcels}
use content_service.Redis.Scenes.{
  Keyspace, owner_of, owners, without_scenes, scene_set, set_scene_parcels-eq-scene_set,
}

-- Every member of a scene's list has the shape of a parcel id, and its own key names that scene; a
-- parcel's key never names a key of that shape.
pub record IsConsistent (d : Keyspace) : Type 0 where
  pub owned :
      (c p : String) (xs : List String)
      → d c ≡ some (list xs)
      → contains p xs ≡ true
      → d p ≡ some (str c)
  pub listed :
      (c p : String) (xs : List String)
      → d c ≡ some (list xs)
      → contains p xs ≡ true
      → is_parcel_key p ≡ true
  pub refers :
      (p c : String) → is_parcel_key p ≡ true → d p ≡ some (str c) → is_parcel_key c ≡ false

abbrev pub AllParcels : List String → Type 0
AllParcels = All λ p. is_parcel_key p ≡ true

-- A scene is the owner of no parcel of two lists.
pub owner_unique :
    {d : Keyspace}
    → IsConsistent d
    → (c c' p : String) (xs ys : List String) → d c ≡ some (list xs)
    → d c' ≡ some (list ys)
    → contains p xs ≡ true
    → contains p ys ≡ true
    → c ≡ c'
owner_unique k c c' p xs ys e e' m m' = cc (k.owned c p xs e m, k.owned c' p ys e' m')

-- The list that LPUSH found, if it has an element, was at the key.
list_of-mem :
    (v : Option Value) (p : String) (xs : List String)
    → list_of v ≡ some xs
    → contains p xs ≡ true
    → v ≡ some (list xs)
list_of-mem none p xs e m = ground arith
list_of-mem (some (list ys)) p xs e m = cc
list_of-mem (some _) p xs e m = cc

-- A parcel id is no other text.
pub plain-ne-parcel :
    (a b : String) → is_parcel_key a ≡ false → is_parcel_key b ≡ true → (a == b) ≡ false
plain-ne-parcel a b h k = elim (Bool-cases (a == b)) [
  | inl e ↦ let same = ap is_parcel_key ((eq_iff a b).0 e) in cc
  | inr e ↦ e
]

pub contains-AllParcels :
    (p : String) (ps : List String) → AllParcels ps → contains p ps ≡ true → is_parcel_key p ≡ true
contains-AllParcels p [] _ m = cc
contains-AllParcels p (q ∷ ps) (h, hs) m = elim (Bool-cases (q == p)) [
  | inl e ↦ let same = ap is_parcel_key ((eq_iff q p).0 e) in cc
  | inr e ↦ contains-AllParcels p ps hs (ground arith)
]

-- A text that is no parcel id is not among parcels.
pub not_named :
    (c : String) (ps : List String)
    → is_parcel_key c ≡ false
    → AllParcels ps
    → contains c ps ≡ false
not_named c ps plain parcels = elim (Bool-cases (contains c ps)) [
  | inl named ↦ let h = contains-AllParcels c ps parcels named in cc
  | inr other ↦ other
]

module _ {d : Keyspace} (k : IsConsistent d) where
  owner_plain :
      (p : String) (v : Option Value)
      → is_parcel_key p ≡ true
      → d p ≡ v
      → is_parcel_key (owner_of v) ≡ false
  unfolding is_parcel_key starts_number
  owner_plain p (some (str c)) h e = k.refers p c h e
  owner_plain p _ h e = refl

  -- No parcel id is among the owners of parcels.
  owners_plain :
      (j : String) (ps : List String)
      → AllParcels ps
      → is_parcel_key j ≡ true
      → contains j (owners d ps) ≡ false
  owners_plain j [] _ h = refl
  owners_plain j (p ∷ ps) (c, cs) h =
      rw (plain-ne-parcel (owner_of (d p)) j (owner_plain p (d p) c refl) h)
        (owners_plain j ps cs h)

  owner_listed :
      (p c : String) (ps : List String)
      → d p ≡ some (str c)
      → contains p ps ≡ true
      → contains c (owners d ps) ≡ true
  owner_listed p c [] e m = cc
  owner_listed p c (q ∷ ps) e m = elim (Bool-cases (q == p)) [
    | inl same ↦
        rw
          ((eq_iff (owner_of (d q)) c).1
            (ap (λ x. owner_of (d x)) ((eq_iff q p).0 same) ∙ ap owner_of e))
          refl
    | inr other ↦ ground (arith, owner_listed p c ps e)
  ]

  module _ (scene : String) (ps xs : List String) (plain : is_parcel_key scene ≡ false)
      (parcels : AllParcels ps) (found : list_of (without_scenes d ps scene) ≡ some xs) where
    -- What a parcel on the list that LPUSH found looked like before.
    found_owned :
        (p : String) → contains p xs ≡ true → (d p ≡ some (str scene)) × (is_parcel_key p ≡ true)
    found_owned p m =
        let e = list_of-mem (without_scenes d ps scene) p xs found m in
        let e' : d scene ≡ some (list xs) = ground arith in
        (k.owned scene p xs e' m, k.listed scene p xs e' m)

    -- A parcel that the call does not name keeps its key.
    kept_parcel :
        (p : String)
        → is_parcel_key p ≡ true
        → contains p ps ≡ false
        → scene_set d scene ps xs p ≡ d p
    kept_parcel p h m = rw (m, plain-ne-parcel scene p plain h, owners_plain p ps parcels h)

    new_list-owned :
        (p : String)
        → contains p (reverse ps ++ xs) ≡ true
        → (scene_set d scene ps xs p ≡ some (str scene)) × (is_parcel_key p ≡ true)
    new_list-owned p m = elim (Bool-cases (contains p ps)) [
      | inl named ↦ (rw named refl, contains-AllParcels p ps parcels named)
      | inr other ↦
          let (own, comma) =
            found_owned p
              (ground (arith, contains-append p (reverse ps) xs, contains-reverse p ps)) in
          (kept_parcel p comma other ∙ own, comma)
    ]

    old_list-owned :
        (c p : String) (ys : List String)
        → without_scenes d ps c ≡ some (list ys)
        → contains p ys ≡ true
        → (scene_set d scene ps xs p ≡ some (str c)) × (is_parcel_key p ≡ true)
    old_list-owned c p ys e m =
        let gone : contains c (owners d ps) ≡ false = ground arith in
        let e' : d c ≡ some (list ys) = ground arith in
        let own = k.owned c p ys e' m in
        let comma = k.listed c p ys e' m in
        let unnamed : contains p ps ≡ false = elim (Bool-cases (contains p ps)) [
          | inl named ↦ let listed = owner_listed p c ps own named in cc
          | inr other ↦ other
        ] in
        (kept_parcel p comma unnamed ∙ own, comma)

    scene_set-owned :
        (c p : String) (ys : List String)
        → scene_set d scene ps xs c ≡ some (list ys)
        → contains p ys ≡ true
        → (scene_set d scene ps xs p ≡ some (str c)) × (is_parcel_key p ≡ true)
    scene_set-owned c p ys e m = elim (Bool-cases (contains c ps)) [
      | inl named ↦ let e' = rw named at e in cc
      | inr other ↦ elim (Bool-cases (scene == c)) [
        | inl same ↦
            let path = (eq_iff scene c).0 same in
            let e' = rw (other, same) at e in
            let lists : reverse ps ++ xs ≡ ys = cc in rw (← path) (new_list-owned p (rw lists m))
        | inr differ ↦ old_list-owned c p ys (rw (other, differ) at e) m
      ]
    ]

    pub scene_set-IsConsistent : IsConsistent (scene_set d scene ps xs)
    scene_set-IsConsistent = record {
      owned = λ c p ys e m. (scene_set-owned c p ys e m).0;
      listed = λ c p ys e m. (scene_set-owned c p ys e m).1;
      refers = λ p c h e. elim (Bool-cases (contains p ps)) [
        | inl named ↦ let e' = rw named at e in let owner : c ≡ scene = cc in rw owner plain
        | inr other ↦ k.refers p c h (sym (kept_parcel p h other) ∙ e)
      ];
    }

-- A write of a value that is no list, to a key that is no parcel id, keeps the keyspace consistent.
pub IsConsistent-write :
    {d e : Keyspace} (key : String) (v : Value)
    → IsConsistent d
    → is_parcel_key key ≡ false
    → ((xs : List String) → v ≢ list xs)
    → ((j : String) → e j ≡ (if key == j then some v else d j))
    → IsConsistent e
IsConsistent-write {d} {e} key v k plain no_list write = record {
  owned = λ c p xs h m.
      let h' = unwritten_list c xs h in rw (kept p (k.listed c p xs h' m)) (k.owned c p xs h' m);
  listed = λ c p xs h m. k.listed c p xs (unwritten_list c xs h) m;
  refers = λ p c q h. k.refers p c q (sym (kept p q) ∙ h);
}
  where
    kept : (p : String) → is_parcel_key p ≡ true → e p ≡ d p
    kept p q = write p ∙ rw (plain-ne-parcel key p plain q) refl

    unwritten_list : (c : String) (xs : List String) → e c ≡ some (list xs) → d c ≡ some (list xs)
    unwritten_list c xs h = elim (Bool-cases (key == c)) [
      | inl same ↦ let h' = rw same at (sym (write c) ∙ h) in absurd (no_list xs (cc))
      | inr other ↦ rw other at (sym (write c) ∙ h)
    ]

-- If the keyspace is consistent, every parcel has the shape of a parcel id and the scene's CID has
-- not, then the keyspace that a successful SetSceneParcels leaves is consistent: no parcel is on two lists.
pub set_scene_parcels-IsConsistent :
    {S : Type 0} (srv : RedisServer S) (ord : MapRange) (scene : String) (ps : List String)
    (s t : S)
    → IsConsistent (srv.value_at s)
    → is_parcel_key scene ≡ false
    → AllParcels ps
    → set_scene_parcels srv ord scene ps s ≡ (ok tt, t)
    → IsConsistent (srv.value_at t)
set_scene_parcels-IsConsistent srv ord scene ps s t k plain parcels h =
    let (_, xs, found, final) = set_scene_parcels-eq-scene_set srv ord scene ps s t h in
    rw (fun_ext final) (scene_set-IsConsistent k scene ps xs plain parcels found)
