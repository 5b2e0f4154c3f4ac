-- ===== src/Examples/Service.antt =====
-- An upload service on plain functions: paths to bytes, an IPFS node that names a file by its
-- length, a land API that grants everything, one wallet and one contract.
use Prim.Native.String.{len}
use content_service.Prelude.{
  false, ℕ, zero, suc, ◌≡◌, refl, sym, ap, String, Bool, true, [], ◌∷◌, ◌++◌, Option, ◌∙◌, eq_refl,
  none, some, ◌==◌, if◌then◌else◌, length, MapRange,
}
use mathlib.Core.List.Perm
use mathlib.Core.Option
use content_service.Prelude.Int.{pos}
use content_service.Prelude.Decimal.{show_ℕ}
use content_service.Prelude.Text.{◌+++◌, has_comma}
use content_service.Go.{plain, ok, err, panicked, Exec}
use content_service.Redis.Scenes.{Keyspace}
use content_service.Redis.Keys.{first_code}
use content_service.Upload.Cids.{GivesCidsV0, is_cid_v0}
use content_service.Auth.{Bytes, Crypto, LandApi}
use content_service.Rpc.{EthClient, expected}
use content_service.Storage.{Reader, FileSystem, local_storage}
use content_service.Upload.Service.{IpfsNode, UploadService}
use content_service.Examples.Server.{server}

abbrev pub Disk : Type 0
Disk = String → Option Bytes

abbrev put : String → Option Bytes → Disk → Disk
put p b d q = if p == q then b else d q

abbrev copy_to : String → Reader → Exec Disk Unit
copy_to p (ok b) d = (ok tt, put p (some b) d)
copy_to p (err e) d = (err e, d)
copy_to p panicked d = (panicked, d)

abbrev open_at : Option Bytes → Exec Disk Reader
open_at none d = (err (plain "no such file"), d)
open_at (some b) d = (ok (ok b), d)

abbrev join_paths : String → String → String
join_paths a b = if a == "" then b else a +++ "/" +++ b

pub copy_to_ok :
    (p : String) (r : Reader) (d e : Disk)
    → copy_to p r d ≡ (ok tt, e)
    → (b : Bytes) × (r ≡ ok b) × (e p ≡ some b)
copy_to_ok p (ok b) d e h = (b, refl, ap (λ x. x.1 p) (sym h) ∙ rw (eq_refl p) refl)
copy_to_ok p (err x) d e h = cc
copy_to_ok p panicked d e h = cc

pub open_at_ok :
    (o : Option Bytes) (d e : Disk) (r : Reader) (b : Bytes)
    → open_at o d ≡ (ok r, e)
    → r ≡ ok b
    → o ≡ some b
open_at_ok none d e r b h q = cc
open_at_ok (some c) d e r b h q = cc

pub copy_to_others :
    (p q : String) (r : Reader) (d e : Disk)
    → (p == q) ≡ false
    → copy_to p r d ≡ (ok tt, e)
    → e q ≡ d q
copy_to_others p q (ok b) d e differ h = ap (λ x. x.1 q) (sym h) ∙ rw differ refl
copy_to_others p q (err x) d e differ h = cc
copy_to_others p q panicked d e differ h = cc

abbrev pub files : FileSystem Disk
files = record {
  join = join_paths;
  dir = λ p. "";
  base = λ p. p;
  file_at = λ d. d;
  mkdir_all = λ p d. (ok tt, d);
  create = λ p d. (ok tt, put p (some []) d);
  copy = λ p r d. copy_to p r d;
  open_file = λ p d. open_at (d p) d;
  stat_size = λ p d. (ok (Option.map length (d p)), d);
  remove_all = λ p d. (ok tt, put p none d);
  join-dir-base = λ a b. refl;
  create_ok = λ p d e h. ap (λ x. x.1 p) (sym h) ∙ rw (eq_refl p) refl;
  copy_ok = λ p r d e empty h. copy_to_ok p r d e h;
  create_others = λ a b c x d e differ h. ap (λ y. y.1 (join_paths c x)) (sym h) ∙ rw differ refl;
  copy_others =
      λ a b c x r d e differ h. copy_to_others (join_paths a b) (join_paths c x) r d e differ h;
  open_file_ok = λ p d e r h b q. open_at_ok (d p) d e r b h q;
}

abbrev cid_of_bytes : Bytes → String
cid_of_bytes b = "Qm" +++ show_ℕ (length b)

abbrev add_reader : Reader → Exec Disk String
add_reader (ok b) d = (ok (cid_of_bytes b), d)
add_reader (err e) d = (err e, d)
add_reader panicked d = (panicked, d)

pub add_reader_ok :
    (r : Reader) (d e : Disk) (c : String)
    → add_reader r d ≡ (ok c, e)
    → (b : Bytes) × (r ≡ ok b) × (c ≡ cid_of_bytes b)
add_reader_ok (ok b) d e c h = (b, refl, cc)
add_reader_ok (err x) d e c h = cc
add_reader_ok panicked d e c h = cc

abbrev pub node : IpfsNode Disk
node = record {
  cid_of = cid_of_bytes;
  add = λ r d. add_reader r d;
  add_tree = λ path d. (ok "QmRoot", d);
  add_ok = add_reader_ok;
}

abbrev pub land_api : LandApi Disk
land_api = record {
  http_get = λ url d. (ok (record { status_code = 200; body = url }), d);
  decode = λ body. ok (some (record { is_update_authorized = true }));
  api_url = "https://api/v1";
  with_path = λ url change. some (url +++ change "");
  path_join = λ a b. a +++ "/" +++ b;
}

abbrev zeros : ℕ → Bytes
zeros zero = []
zeros (suc n) = 0 ∷ zeros n

-- "0xsig" is a signature by "0xkey", "0xshort" has one byte.
abbrev pub wallet : Crypto
wallet = record {
  keccak256 = λ text. len text ∷ [];
  hex_decode = λ s.
      if s == "0xsig"
      then some (zeros 64 ++ 27 ∷ [])
      else if s == "0xkey"
      then some (7 ∷ [])
      else if s == "0xshort"
      then some (1 ∷ [])
      else none;
  ecrecover = λ hash sig. some (4 ∷ []);
  address_of = λ key. some (7 ∷ []);
}

abbrev contract : EthClient Disk
contract = record {
  pack = λ value signature. ok [];
  call_contract = λ address packed d. (ok expected, d);
}

abbrev pub in_order : MapRange
in_order = record { range = λ V m. m; range_perm = λ V m. Perm.refl m }

abbrev parses : String → Bool
parses c = true

pub node_v0 : GivesCidsV0 node
unfolding first_code has_comma
node_v0 = record { tree_cid = λ path s t c h. go c (cc) }
  where
    go : (c : String) → "QmRoot" ≡ c → is_cid_v0 c ≡ true
    go c e = rw (← e) refl

abbrev pub service : UploadService Keyspace Disk
service = record {
  storage = local_storage files "";
  redis = server;
  ipfs_node = node;
  crypto = wallet;
  land = land_api;
  parcel_size_limit = pos 1000;
  workdir = "tmp";
  rpc = contract;
  fs = files;
  parses = parses;
  verifies = λ c. true;
  order = in_order;
}
