-- ===== src/Hub/Client/Linked.antt =====
-- The client linked to the server of pkg/service-hub/apiserver: what the one sends, the other handles.
-- The router of chi is a parameter, as is what it does with a path that it does not know.
use fab_dns.Base.{
  String, false, Option, none, some, ◌≡◌, refl, sym, ◌∙◌, leb, Result, ok, ap, Bool-cases,
  Option-cases, inl, inr,
}
use fab_dns.Base.Equality.{string_eq}
use fab_dns.Hub.Clusters.{Time}
use fab_dns.Hub.ApiServer
use fab_dns.Hub.ApiServer.{
  Response, Route, State, get_all_global_services, upload_global_service, delete_endpoints,
  clean_items, all_services, serve,
}
use fab_dns.Hub.Client.{
  Env, HttpRequest, HttpResponse, ClientError, handle_response, handled, try_send, without_content,
}

abbrev pub response_of : Response → HttpResponse
response_of r = record { status_code = r.status; content = r.body; read_error = none }

module _ {W : Type 0} (server : ApiServer.Env W) (now : Time) (router : HttpRequest → Option Route)
    (unrouted : HttpRequest → State W → HttpResponse × State W) where
  -- A request as the server's handlers read it.
  abbrev pub received : HttpRequest → ApiServer.Request
  received request = record { cluster_name = request.cluster_name; body = ok request.body }

  abbrev answered : Response × State W → Result String HttpResponse × State W
  answered (r, s) = (ok (response_of r), s)

  abbrev routed : HttpRequest → Option Route → State W → Result String HttpResponse × State W
  routed request none s = (ok (unrouted request s).0, (unrouted request s).1)
  routed request (some route) s = answered (serve server now route (received request) s)

  -- The client whose requests are handled by the server.
  abbrev pub linked : Env (State W) → Env (State W)
  linked env = record env { send = λ request s. routed request (router request) s }

-- The client takes an answer for a success only if its code is below 400.
handled_ok : (r : Response) → handled (ok (response_of r)) ≡ none → leb 400 r.status ≡ false
unfolding handled handle_response
handled_ok r h = elim (Bool-cases (leb 400 r.status)) [
  | inr f ↦ f
  | inl t ↦
      let k : ◌≡◌ {A = Option ClientError} (some _) none = rw (t, handled, handle_response) at h in
      cc
]

module _ {W : Type 0} (server : ApiServer.Env W) (now : Time) (router : HttpRequest → Option Route)
    (unrouted : HttpRequest → State W → HttpResponse × State W) (env : Env (State W)) where
  -- The client of the link, as it stands at a moment.
  abbrev pub client : Env (State W)
  client = linked server now router unrouted env

  -- A request that is sent and routed is handled by the server, and answered with what it returns.
  sent :
      (request : HttpRequest) (route : Route) (s : State W)
      → env.new_request request ≡ none
      → router request ≡ some route
      → without_content client (try_send client request (env.new_request request) s) ≡ (
        handled (
            ok (
              response_of
                (serve server now route (received server now router unrouted request) s).0)),
        (serve server now route (received server now router unrouted request) s).1,
      )
  unfolding without_content
  sent request route s accepts routes = rw (accepts, routes) refl

  -- A request that is not made is an error.
  unsent :
      (request : HttpRequest) (s : State W) (e : String)
      → env.new_request request ≡ some e
      → (without_content client (try_send client request (env.new_request request) s)).0 ≡ none
      → ⊥
  unfolding without_content handled
  unsent request s e refused h =
      let k : ◌≡◌ {A = Option ClientError} (some _) none = rw refused at h in cc

  -- Where the client reports no error, the server has handled the request with a code below 400.
  pub confirmed :
      (request : HttpRequest) (route : Route) (s : State W)
      → router request ≡ some route
      → (without_content client (try_send client request (env.new_request request) s)).0 ≡ none
      → (leb 400 (serve server now route (received server now router unrouted request) s).0.status
          ≡ false)
        × ((without_content client (try_send client request (env.new_request request) s)).1
            ≡ (serve server now route (received server now router unrouted request) s).1)
  confirmed request route s routes h = elim (Option-cases (env.new_request request)) [
    | inr (e, refused) ↦ absurd (unsent request s e refused h)
    | inl accepts ↦
        let same = sent request route s accepts routes in
        (
          handled_ok _ (ap (λ (p : Option ClientError × State W). p.0) (sym same) ∙ h),
          ap (λ (p : Option ClientError × State W). p.1) same,
        )
  ]
