-- ===== src/Hub/Client.antt =====
-- pkg/service-hub/client/client.go: the client of the API. Requests are values; package http, which
-- sends them, is a parameter, and so are the resolution of paths against the base address and JSON.
pub mod Responses
pub mod Linked
pub mod Roundtrip
pub mod Downloads
use Prim.Native.String.{◌++◌}
use fab_dns.Base.{
  ℕ, String, Bool, true, false, List, [], ◌∷◌, Option, none, some, leb, nat_beq, if◌then◌else◌,
  Result, ok, err,
}
use fab_dns.Api.{GlobalService}
use fab_dns.Hub.ApiServer.{status_no_content}

-- The constants of pkg/service-hub/apiserver/apiserver.go
abbrev pub path_heartbeat : String
path_heartbeat = "/api/heartbeat"

abbrev pub path_global_services : String
path_global_services = "/api/global-services"

pub data Method : Type 0 where
  method_get method_post method_delete : Method

-- http.Request, with the header of the cluster.
pub record HttpRequest : Type 0 where
  pub method : Method
  pub url : String
  pub cluster_name : String
  pub content_type : Option String
  pub body : String

-- http.Response: `ReadAll` on the body gives the bytes read and an error.
pub record HttpResponse : Type 0 where
  pub status_code : ℕ
  pub content : String
  pub read_error : Option String

-- `HttpError`, and the errors of the libraries.
pub data ClientError : Type 0 where
  http_error : (status_code : ℕ) (message : String) → ClientError
  failed : String → ClientError

-- `join` against the base address, `http.NewRequest`'s check of the address, `Do`, and JSON; a nil
-- slice of bytes is "".
pub record Env (W : Type 0) : Type 0 where
  pub cluster_name : String
  pub join : String → String
  pub new_request : HttpRequest → Option String
  pub send : HttpRequest → W → Result String HttpResponse × W
  pub marshal : GlobalService → Result String String
  pub unmarshal : String → Result String (List GlobalService)

abbrev failed_if : Option String → Option ClientError
failed_if none = none
failed_if (some e) = some (failed e)

-- The content of a failure and the error of reading it.
abbrev failure : ℕ → String → Option String → String × Option ClientError
failure status_code content (some e) = (content, some (failed e))
failure status_code content none = ("", some (http_error status_code content))

-- `handleResponse`: what was read, and the error.
unfoldable pub handle_response : HttpResponse → String × Option ClientError
handle_response resp =
    if leb 400 resp.status_code
    then failure resp.status_code resp.content resp.read_error
    else if nat_beq resp.status_code status_no_content
    then ("", none)
    else (resp.content, failed_if resp.read_error)

abbrev handled : Result String HttpResponse → Option ClientError
unfolding handle_response
handled (err e) = some (failed e)
handled (ok resp) = (handle_response resp).1

module _ {W : Type 0} (env : Env W) where
  -- What each method does with its request, up to `Do`.
  abbrev pub try_send : HttpRequest → Option String → W → Result String HttpResponse × W
  try_send request (some e) w = (err e, w)
  try_send request none w = env.send request w

  abbrev pub without_content : Result String HttpResponse × W → Option ClientError × W
  unfolding handled
  without_content (r, w) = (handled r, w)

  abbrev pub request_for : Method → String → HttpRequest
  request_for method path = record {
    method = method;
    url = env.join path;
    cluster_name = env.cluster_name;
    content_type = none;
    body = "";
  }

  unfoldable pub heartbeat : W → Option ClientError × W
  unfolding without_content
  heartbeat w =
      let request = request_for method_get path_heartbeat in
      without_content (try_send request (env.new_request request) w)

  abbrev pub upload_request : String → HttpRequest
  upload_request text = record (request_for method_post path_global_services) {
    content_type = some "application/json";
    body = text;
  }

  pub upload_marshalled : Result String String → W → Option ClientError × W
  unfolding without_content
  upload_marshalled (err e) w = (some (failed e), w)
  upload_marshalled (ok text) w =
      let request = upload_request text in
      without_content (try_send request (env.new_request request) w)

  unfoldable pub upload_global_service : GlobalService → W → Option ClientError × W
  unfolding upload_marshalled
  upload_global_service service w = upload_marshalled (env.marshal service) w

  abbrev pub parsed : Result String (List GlobalService) → Result ClientError (List GlobalService)
  parsed (err e) = err (failed e)
  parsed (ok services) = ok services

  -- The error of `handleResponse` is overwritten by that of `Unmarshal`.
  unfoldable pub downloaded : Result String HttpResponse → Result ClientError (List GlobalService)
  unfolding handle_response
  downloaded (err e) = err (failed e)
  downloaded (ok resp) = parsed (env.unmarshal (handle_response resp).0)

  unfoldable pub download_all_global_services : W → Result ClientError (List GlobalService) × W
  unfolding downloaded
  download_all_global_services w =
      let request = request_for method_get path_global_services in
      let (r, w') = try_send request (env.new_request request) w in (downloaded r, w')

  abbrev pub service_path : String → String → String
  service_path namespace name = path_global_services ++ "/" ++ namespace ++ "/" ++ name

  unfoldable pub delete_global_service : String → String → W → Option ClientError × W
  unfolding without_content
  delete_global_service namespace name w =
      let request = request_for method_delete (service_path namespace name) in
      without_content (try_send request (env.new_request request) w)
