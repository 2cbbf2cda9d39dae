-- ===== src/Hub/Client/Responses.antt =====
-- The client against a server that fails, or a proxy that answers in its place.
use fab_dns.Base.{String, true, none, some, ◌≡◌, refl, leb, ok}
use fab_dns.Api.{GlobalService}
use fab_dns.Hub.Client.{
  Env, HttpRequest, HttpResponse, http_error, handle_response, handled, try_send, without_content,
  parsed, downloaded, heartbeat, upload_global_service, upload_marshalled,
  download_all_global_services, delete_global_service,
}

module _ (resp : HttpResponse) (failure_code : leb 400 resp.status_code ≡ true)
    (readable : resp.read_error ≡ none) where
  handle_response_failure :
      handle_response resp ≡ ("", some (http_error resp.status_code resp.content))
  unfolding handle_response
  handle_response_failure = rw (failure_code, readable) refl

  module _ {W : Type 0} (env : Env W)
      (accepts : (request : HttpRequest) → env.new_request request ≡ none)
      (answers : (request : HttpRequest) (w : W) → (env.send request w).0 ≡ ok resp) where
    without_content-failure :
        (request : HttpRequest) (w : W)
        → (without_content env (try_send env request (env.new_request request) w)).0
          ≡ some (http_error resp.status_code resp.content)
    unfolding without_content handled
    without_content-failure request w =
        rw (accepts request, answers request w, handled, handle_response_failure) refl

    -- While every request is answered with the same failure, whose body can be read: `Heartbeat`,
    -- `UploadGlobalService` of a service that has a JSON form and `DeleteGlobalService` return the
    -- `HttpError` with its code and body; but `DownloadAllGlobalServices` returns what parsing no bytes
    -- at all gives, whatever the code and the body.
    pub client-http_error :
        (service : GlobalService) (text namespace name : String) (w : W)
        → env.marshal service ≡ ok text
        → ((heartbeat env w).0 ≡ some (http_error resp.status_code resp.content))
          × ((upload_global_service env service w).0
              ≡ some (http_error resp.status_code resp.content))
          × ((delete_global_service env namespace name w).0
              ≡ some (http_error resp.status_code resp.content))
          × ((download_all_global_services env w).0 ≡ parsed env (env.unmarshal ""))
    unfolding heartbeat upload_global_service upload_marshalled delete_global_service
        download_all_global_services downloaded
    client-http_error service text namespace name w marshals = (
      without_content-failure _ w,
      rw marshals (without_content-failure _ w),
      without_content-failure _ w,
      rw (accepts _, answers _ w, handle_response_failure) refl,
    )
