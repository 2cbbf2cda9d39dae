-- ===== src/Fabdns/Directives.antt =====
-- cmd/fabdns/main.go: the plugins of the server, in the order in which they are asked.
use fab_dns.Base.{String, List, [], ◌∷◌, ◌++◌, ◌≡◌, refl}
use fab_dns.Fabdns.Serve.{plugin_name}

-- What is asked before the plugin, and after it.
abbrev asked_before : List String
asked_before =
    "metadata" ∷ "cancel" ∷ "tls" ∷ "reload" ∷ "nsid" ∷ "root" ∷ "bind" ∷ "debug" ∷ "trace"
    ∷ "ready" ∷ "health" ∷ "pprof" ∷ "prometheus" ∷ "errors" ∷ "log" ∷ "dnstap" ∷ "any" ∷ "chaos"
    ∷ "loadbalance" ∷ "cache" ∷ "rewrite" ∷ "dnssec" ∷ "autopath" ∷ "template" ∷ "hosts" ∷ "route53"
    ∷ "k8s_external" ∷ []

abbrev asked_after : List String
asked_after =
    "file" ∷ "auto" ∷ "secondary" ∷ "etcd" ∷ "loop" ∷ "forward" ∷ "grpc" ∷ "erratic" ∷ "whoami"
    ∷ "on" ∷ []

pub directives : List String
directives =
    "metadata" ∷ "cancel" ∷ "tls" ∷ "reload" ∷ "nsid" ∷ "root" ∷ "bind" ∷ "debug" ∷ "trace"
    ∷ "ready" ∷ "health" ∷ "pprof" ∷ "prometheus" ∷ "errors" ∷ "log" ∷ "dnstap" ∷ "any" ∷ "chaos"
    ∷ "loadbalance" ∷ "cache" ∷ "rewrite" ∷ "dnssec" ∷ "autopath" ∷ "template" ∷ "hosts" ∷ "route53"
    ∷ "k8s_external" ∷ "fabdns" ∷ "file" ∷ "auto" ∷ "secondary" ∷ "etcd" ∷ "loop" ∷ "forward"
    ∷ "grpc" ∷ "erratic" ∷ "whoami" ∷ "on" ∷ []

-- The plugin is one of them, so that its set-up is called where the configuration names it.
plugin_name-directives : directives ≡ asked_before ++ plugin_name ∷ asked_after
unfolding directives
plugin_name-directives = refl
