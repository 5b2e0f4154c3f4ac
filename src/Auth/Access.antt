-- ===== src/Auth/Access.antt =====
-- What a positive answer of UserCanModifyParcels rests on.
use content_service.Prelude.{
  ◌≡◌, ◌≢◌, refl, String, Bool, true, false, List, [], ◌∷◌, Option, none, some, if◌then◌else◌, All,
  Bool-cases, inl, inr,
}
use content_service.Prelude.Int.{ℤ}
use content_service.Go.{ok, pure, lift}
use content_service.Go.Inversion.{>>=-eq-ok, lift-eq-ok}
use content_service.Auth.{
  AccessData, has_access, LandApi, get_parcel_access_data, parse_parcel, access_granted,
  can_modify_parcel, can_modify_each, user_can_modify_parcels,
}

-- The land API granted the key access to the coordinates that the parcel's id names.
pub record IsGranted {D : Type 0} (api : LandApi D) (pubkey parcel : String) : Type 0 where
  pub x : ℤ
  pub y : ℤ
  pub parsed : parse_parcel parcel ≡ ok (x, y)
  pub before : D
  pub after : D
  pub access : AccessData
  pub replied : get_parcel_access_data api pubkey x y before ≡ (ok (some access), after)
  pub granted : has_access access ≡ true

module _ {D : Type 0} (api : LandApi D) (pubkey : String) where
  access_granted-eq-ok :
      (a : Option AccessData) (b : Bool)
      → access_granted api a ≡ ok b
      → (d : AccessData) × (a ≡ some d) × (has_access d ≡ b)
  access_granted-eq-ok none b h = cc
  access_granted-eq-ok (some d) b h = (d, refl, cc)

  can_modify_parcel-IsGranted :
      (p : String) (s t : D)
      → can_modify_parcel api pubkey p s ≡ (ok true, t)
      → IsGranted api pubkey p
  unfolding can_modify_parcel
  can_modify_parcel-IsGranted p s t h =
      let (c, u, e, k) = >>=-eq-ok (lift (parse_parcel p)) _ s h in
      let (a, v, e', k') = >>=-eq-ok (get_parcel_access_data api pubkey c.0 c.1) _ u k in
      let (d, found, access) =
        access_granted-eq-ok a true (lift-eq-ok (access_granted api a) v k').0 in
      record {
        x = c.0;
        y = c.1;
        parsed = (lift-eq-ok (parse_parcel p) s e).0;
        before = u;
        after = v;
        access = d;
        replied = rw found at e';
        granted = access;
      }

  can_modify_each-IsGranted :
      (ps : List String) (s t : D)
      → can_modify_each api pubkey ps s ≡ (ok true, t)
      → All (IsGranted api pubkey) ps
  unfolding can_modify_each
  can_modify_each-IsGranted [] s t h = tt
  can_modify_each-IsGranted (p ∷ ps) s t h =
      let (b, u, e, k) =
        >>=-eq-ok (can_modify_parcel api pubkey p)
          (λ granted. if granted then can_modify_each api pubkey ps else pure false) s h in
      elim (Bool-cases b) [
        | inl granted ↦ (
          can_modify_parcel-IsGranted p s u (rw granted at e),
          can_modify_each-IsGranted ps u t (rw granted at k),
        )
        | inr denied ↦ let k' = rw denied at k in cc
      ]

  -- UserCanModifyParcels returns true only for a list with at least one parcel, all of them parcel
  -- ids of coordinates to which the land API granted the key access, each asked in turn.
  pub user_can_modify_parcels-IsGranted :
      (ps : List String) (s t : D)
      → user_can_modify_parcels api pubkey ps s ≡ (ok true, t)
      → (ps ≢ []) × All (IsGranted api pubkey) ps
  unfolding user_can_modify_parcels
  user_can_modify_parcels-IsGranted [] s t h = cc
  user_can_modify_parcels-IsGranted (p ∷ ps) s t h =
      ((λ e. cc), can_modify_each-IsGranted (p ∷ ps) s t h)
