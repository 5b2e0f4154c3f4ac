-- ===== src/Upload/Cids.antt =====
-- What the program relies on of CIDs: those that the IPFS node computes have version 0, so that none
-- of them is another key of the program's keyspace. cid.Parse, in checkCIDFormat, accepts more.
use content_service.Prelude.{◌≡◌, refl, String, Bool, true, false, not, ◌&&◌, nat_eq, arith}
use content_service.Prelude.Text.{has_comma, ◌+++◌}
use content_service.Go.{ok}
use content_service.Redis.Client.{
  content_key_prefix, metadata_key_prefix, root_scene_prefix, uploaded_elements_key, processed_set,
}
use content_service.Redis.Keys.{
  first_code, content_key-first, metadata_key-first, root_scene_key-first,
}
use content_service.Upload.Service.{IpfsNode}

-- A predicate that no parcel id and no prefixed content key meets.
pub record CidSyntax (is_cid : String → Bool) : Type 0 where
  pub no_comma : (c : String) → is_cid c ≡ true → has_comma c ≡ false
  pub no_content_key : (c : String) → is_cid (content_key_prefix +++ c) ≡ false

-- A predicate that no key of the program meets but the lists of the scenes.
pub record KeySyntax (is_cid : String → Bool) : Type 0 where
  pub cids : CidSyntax is_cid
  pub no_metadata_key : (c : String) → is_cid (metadata_key_prefix +++ c) ≡ false
  pub no_root_scene_key : (c : String) → is_cid (root_scene_prefix +++ c) ≡ false
  pub no_empty : is_cid "" ≡ false
  pub no_uploaded_key : is_cid uploaded_elements_key ≡ false
  pub no_processed_key : is_cid processed_set ≡ false

-- The text begins with "Q" and has no comma, as a CID of version 0 does: it is "Qm" and 44 more
-- characters of base58.
abbrev pub is_cid_v0 : String → Bool
is_cid_v0 c = nat_eq (first_code c) 81 && not (has_comma c)

-- coreunix.AddR gives CIDs of version 0.
pub record GivesCidsV0 {D : Type 0} (node : IpfsNode D) : Type 0 where
  pub tree_cid :
      (path : String) (s t : D) (c : String) → node.add_tree path s ≡ (ok c, t) → is_cid_v0 c ≡ true

pub is_cid_v0-CidSyntax : CidSyntax is_cid_v0
is_cid_v0-CidSyntax = record {
  no_comma = λ c h. ground (arith, h);
  no_content_key = λ c. rw (content_key-first c) refl;
}

pub is_cid_v0-KeySyntax : KeySyntax is_cid_v0
unfolding first_code has_comma
is_cid_v0-KeySyntax = record {
  cids = is_cid_v0-CidSyntax;
  no_metadata_key = λ c. rw (metadata_key-first c) refl;
  no_root_scene_key = λ c. rw (root_scene_key-first c) refl;
  no_empty = refl;
  no_uploaded_key = refl;
  no_processed_key = refl;
}
