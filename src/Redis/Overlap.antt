-- ===== src/Redis/Overlap.antt =====
-- Two calls of SetSceneParcels (data/redis.go) that overlap, as two handlers of the server may: the
-- client sends each command on its own, in no transaction.
use content_service.Prelude.{
  ◌≡◌, ◌≢◌, refl, sym, ◌∙◌, String, true, false, List, [], ◌++◌, reverse, some, MapRange, contains,
  ◌==◌, arith, contains-append, contains-reverse, eq_iff, Bool-cases, inl, inr,
}
use content_service.Go.{ok, Exec, ◌>>=◌, ◌>>◌}
use content_service.Go.Inversion.{>>=-eq-ok}
use content_service.Redis.{RedisServer, str, list}
use content_service.Redis.Client.{old_scenes, replace_scenes}
use content_service.Redis.Keys.{is_parcel_key}
use content_service.Redis.Scenes.{owners, old_scenes_ok, replace_scenes_ok}
use content_service.Redis.Ownership.{IsConsistent, AllParcels, not_named}

different : (a b : String) → a ≢ b → (a == b) ≡ false
different a b n = elim (Bool-cases (a == b)) [ inl e ↦ absurd (n ((eq_iff a b).0 e)) | inr e ↦ e ]

module _ {S : Type 0} (srv : RedisServer S) (ord : MapRange) where
  open srv use {value_at}

  -- One of the orders in which the commands of two calls may reach the server: each call reads the
  -- owners of its parcels, and then the first call writes, and then the second one.
  unfoldable pub overlapping_calls : String → List String → String → List String → Exec S Unit
  overlapping_calls a ps b qs = do
    owners_a ← old_scenes srv [] ps
    owners_b ← old_scenes srv [] qs
    replace_scenes srv ord a ps owners_a
    replace_scenes srv ord b qs owners_b

  -- If two calls of SetSceneParcels for different scenes, whose ids are no parcel ids, with lists of
  -- parcel ids that share a parcel both read the owners of their parcels, then the first writes and
  -- then the second, all their commands succeed, and the first scene owned no parcel of the second's,
  -- then in the end the lists of both scenes have the parcel and its key names the second scene, so
  -- that the keyspace is not consistent.
  pub overlapping_calls-inconsistent :
      (a b p : String) (ps qs : List String) (s t : S)
      → a ≢ b
      → is_parcel_key a ≡ false
      → is_parcel_key b ≡ false
      → AllParcels ps
      → AllParcels qs
      → contains p ps ≡ true
      → contains p qs ≡ true
      → contains a (owners (value_at s) qs) ≡ false
      → overlapping_calls a ps b qs s ≡ (ok tt, t)
      → (xs : List String) × (ys : List String) × (value_at t a ≡ some (list xs))
        × (contains p xs ≡ true)
        × (value_at t b ≡ some (list ys))
        × (contains p ys ≡ true)
        × (value_at t p ≡ some (str b))
        × ¬ (IsConsistent (value_at t))
  unfolding overlapping_calls
  overlapping_calls-inconsistent a b p ps qs s t differ plain plain' parcels parcels' in_a in_b new
        h =
      let (owners_a, s1, e1, h1) = >>=-eq-ok (old_scenes srv [] ps) _ s h in
      let (owners_b, s2, e2, h2) = >>=-eq-ok (old_scenes srv [] qs) _ s1 h1 in
      let (_, s3, e3, h3) = >>=-eq-ok (replace_scenes srv ord a ps owners_a) _ s2 h2 in
      let (same1, keys_a) = old_scenes_ok srv [] ps s s1 owners_a e1 in
      let (same2, keys_b) = old_scenes_ok srv [] qs s1 s2 owners_b e2 in
      let (xs, _, first) = replace_scenes_ok srv ord a ps (value_at s) owners_a s2 s3 keys_a e3 in
      let (ys, _, second) = replace_scenes_ok srv ord b qs (value_at s1) owners_b s3 t keys_b h3 in
      let listed : value_at s3 a ≡ some (list (reverse ps ++ xs)) =
        first a ∙ rw (not_named a ps plain parcels, (eq_iff a a).1 refl) refl in
      let new' : contains a (owners (value_at s1) qs) ≡ false = rw same1 new in
      let kept : value_at t a ≡ some (list (reverse ps ++ xs)) =
        second a
        ∙ rw (not_named a qs plain parcels', different b a (λ e. differ (sym e)), new') listed in
      let owner : value_at t p ≡ some (str b) = second p ∙ rw in_b refl in
      let member : contains p (reverse ps ++ xs) ≡ true =
        ground (arith, contains-append p (reverse ps) xs, contains-reverse p ps) in
      let listed_b : value_at t b ≡ some (list (reverse qs ++ ys)) =
        second b ∙ rw (not_named b qs plain' parcels', (eq_iff b b).1 refl) refl in
      let member_b : contains p (reverse qs ++ ys) ≡ true =
        ground (arith, contains-append p (reverse qs) ys, contains-reverse p qs) in
      (
        reverse ps ++ xs,
        reverse qs ++ ys,
        kept,
        member,
        listed_b,
        member_b,
        owner,
        λ k.
            let owner' = k.owned a p (reverse ps ++ xs) kept member in
            let same : b ≡ a = cc in differ (sym same),
      )
