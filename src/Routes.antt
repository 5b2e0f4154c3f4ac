-- ===== src/Routes.antt =====
-- internal/routes/routes.go: the table of routes, and what the handler of each does to the world. The
-- middleware of dclgin answers the preflight requests, and its RegisterVersionEndpoint adds a route;
-- both touch no state of the service.
use content_service.Prelude.{String, List, [], ◌∷◌, Option}
use content_service.Prelude.Int.{ℤ}
use content_service.Prelude.Text.{◌+++◌}
use content_service.World.{World}
use content_service.Upload.Request.{HttpRequest, UploadHandler}
use content_service.Upload.Service.{UploadService}
use content_service.Upload.Handler.{upload_content}
use content_service.Mappings.{GetMappingsParams, GetScenesParams, get_mappings, get_scenes}
use content_service.Mappings.Info.{ValidateParams, get_info, get_parcel_metadata_reply}
use content_service.Contents.{StorageKind, get_contents, check_content_status}

pub data Method : Type 0 where
  options : Method
  get : Method
  post : Method

-- A handler that the table names; `preflight` has the methods and headers that it allows.
pub data Endpoint : Type 0 where
  preflight : String → String → Endpoint
  mappings : Endpoint
  scenes : Endpoint
  parcel_info : Endpoint
  contents : Endpoint
  validate : Endpoint
  content_status : Endpoint
  upload : Endpoint
  version : Endpoint

pub record Route : Type 0 where
  pub method : Method
  pub path : String
  pub endpoint : Endpoint

abbrev route : Method → String → Endpoint → Route
route m p e = record { method = m; path = p; endpoint = e }

-- The calls of AddRoutes on the router, in their order; `basic` is dclgin.BasicHeaders, and
-- `version_path` is the path at which dclgin serves the version.
abbrev pub routes : String → String → List Route
routes basic version_path =
    route options "/mappings" (preflight "GET, POST" ("x-upload-origin, " +++ basic))
    ∷ route options "/scenes" (preflight "GET" basic)
    ∷ route options "/parcel_info" (preflight "GET" basic)
    ∷ route options "/contents/:cid" (preflight "GET" basic)
    ∷ route options "/validate" (preflight "GET" basic)
    ∷ route options "/content/status" (preflight "POST" basic)
    ∷ route get "/mappings" mappings
    ∷ route get "/scenes" scenes
    ∷ route get "/parcel_info" parcel_info
    ∷ route get "/contents/:cid" contents
    ∷ route get "/validate" validate
    ∷ route post "/content/status" content_status
    ∷ route post "/mappings" upload
    ∷ route get version_path version
    ∷ []

-- What the handlers read of a request, each its own part.
pub record Query : Type 0 where
  pub now : ℤ
  pub kind : StorageKind
  pub corners : Option GetMappingsParams
  pub rectangle : Option GetScenesParams
  pub cids : String
  pub cid : String
  pub parcel : Option ValidateParams
  pub content : Option (List String)
  pub posted : HttpRequest

module _ {R D : Type 0} (uh : UploadHandler) (us : UploadService R D) where
  open us use {storage, redis, fs, order}
  open redis use {value_at}

  -- The world after the handler of an endpoint has answered.
  unfoldable pub serve : Endpoint → Query → World R D → World R D
  serve (preflight methods headers) q w = w
  serve version q w = w
  serve mappings q w = record w { redis = (get_mappings redis order q.corners w.redis).1 }
  serve scenes q w = record w { redis = (get_scenes redis order q.rectangle w.redis).1 }
  serve parcel_info q w = record w { redis = (get_info redis order q.cids w.redis).1 }
  serve contents q w = record w { disk = (get_contents redis storage fs q.kind q.cid w.disk).1 }
  serve validate q w = record w {
    redis = (get_parcel_metadata_reply redis order q.parcel w.redis).1;
  }
  serve content_status q w = (check_content_status redis storage fs q.content w).1
  serve upload q w = (upload_content uh us q.now q.posted w).1
