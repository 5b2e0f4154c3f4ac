-- ===== src/Config/Types.antt =====
-- The list of content types that ALLOWED_TYPES stands for (config/config.go).
use text.Mathlib.TextLemmas.{cons-append, nil-append}
use Prim.Native.Char.{code}
use Prim.Native.String.{String}
use content_service.Prelude.{
  ◌≡◌, refl, sym, ap, ◌∙◌, List, [], ◌∷◌, map, All, nat_eq, Bool-cases, inl, inr,
}
use content_service.Prelude.Text.{
  ◌+++◌, split_comma, NoComma, split_comma-append, split_comma_of_NoComma,
}
use content_service.Config.{trim_left, trim_right, trim_spaces, allowed_types}

-- A type has no comma, and no spaces around it.
pub record IsType (t : String) : Type 0 where
  pub no_comma : NoComma t
  pub trimmed : trim_spaces t ≡ t

-- The types with ", " between them.
unfoldable pub listed : List String → String
listed [] = ""
listed (t ∷ []) = t
listed (t ∷ u ∷ ts) = t +++ "," +++ " " +++ listed (u ∷ ts)

space-trimmed : (t : String) → trim_spaces (" " +++ t) ≡ trim_spaces t
unfolding trim_spaces
space-trimmed t = ap trim_right (rw cons-append (rw nil-append (unfold trim_left in refl)))

space-cons : (t : String) → " " +++ t ≡ String.◌∷◌ " " t
space-cons t = rw cons-append (rw nil-append refl)

-- A split text has a first part.
split_comma-parts : (t : String) → (w : String) × (ws : List String) × (split_comma t ≡ w ∷ ws)
unfolding split_comma
split_comma-parts String.[] = ("", [], refl)
split_comma-parts (String.◌∷◌ c s) =
    let (w, ws, e) = split_comma-parts s in
    elim (Bool-cases (nat_eq (code c) 44)) [
      | inl comma ↦ ("", split_comma s, rw comma refl)
      | inr other ↦ (String.◌∷◌ c w, ws, rw (other, e) refl)
    ]

split_comma-space :
    (w : String) (ws : List String) (t : String)
    → split_comma t ≡ w ∷ ws
    → split_comma (" " +++ t) ≡ (" " +++ w) ∷ ws
split_comma-space w ws t e =
    ap split_comma (space-cons t)
    ∙ unfold split_comma in (rw e (ap (λ x. x ∷ ws) (sym (space-cons w))))

-- A space in front of the list is trimmed.
allowed_types-space : (t : String) → allowed_types (" " +++ t) ≡ allowed_types t
unfolding allowed_types
allowed_types-space t =
    let (w, ws, e) = split_comma-parts t in
    ap (map trim_spaces) (split_comma-space w ws t e)
    ∙ ap (λ x. x ∷ map trim_spaces ws) (space-trimmed w)
    ∙ ap (map trim_spaces) (sym e)

-- ALLOWED_TYPES with types that have no comma and no space around them, separated by a comma and a
-- space, gives these types.
pub allowed_types-listed :
    (t : String) (ts : List String) → All IsType (t ∷ ts) → allowed_types (listed (t ∷ ts)) ≡ t ∷ ts
unfolding listed
allowed_types-listed t [] (h, _) =
    unfold allowed_types in (rw (split_comma_of_NoComma t h.no_comma) (ap (λ x. x ∷ []) h.trimmed))
allowed_types-listed t (u ∷ ts) (h, hs) =
    first_type t (" " +++ listed (u ∷ ts)) h
    ∙ ap (λ x. t ∷ x) (allowed_types-space (listed (u ∷ ts)) ∙ allowed_types-listed u ts hs)
  where
    first_type :
        (t rest : String) → IsType t → allowed_types (t +++ "," +++ rest) ≡ t ∷ allowed_types rest
    first_type t rest h =
        unfold allowed_types in
        (ap (map trim_spaces) (split_comma-append t rest h.no_comma)
          ∙ ap (λ x. x ∷ map trim_spaces (split_comma rest)) h.trimmed)
