-- ===== src/Store/Registry/Resolver.antt =====
-- `SetupOCIRegistryResolver`, `RangeResolver` and `RangeFetcher` of pkg/ocistore/common.go. The resolver of
-- containerd's docker package is a parameter.
use mysnapshotter.Prelude.{
  Bool, true, if◌then◌else◌, Option, none, some, List, [], ◌∷◌, Text, Result,
}
use mysnapshotter.Store.Registry.{Fetcher}

-- The fields of `http.Transport` that the code reads and sets: `InsecureSkipVerify` of its TLS
-- configuration, if there is one.
pub record Transport : Type 0 where
  pub tls_config : Option Bool

-- `http.Client` with the `rangeRoundTripper` around a transport, or with the transport alone.
pub record Client : Type 0 where
  pub ranged : Bool
  pub base : Transport

-- The authorizer: its client, and the user and the secret that it answers for a host.
pub record Authorizer : Type 0 where
  pub auth_client : Client
  pub auth_creds : Text → Text × Text

-- `docker.RegistryOpt`.
pub data RegistryOpt : Type 0 where
  with_client : Client → RegistryOpt
  with_authorizer : Authorizer → RegistryOpt
  with_plain_http : RegistryOpt

-- `http.DefaultTransport`, `docker.ResolverOptions` with its field `Hosts`, and `docker.NewResolver`, with
-- its two calls.
pub record Docker (World : Type 0) : Type 1 where
  pub default_transport : Transport
  pub ResolverOptions : Type 0
  pub no_options : ResolverOptions
  pub set_hosts : List RegistryOpt → ResolverOptions → ResolverOptions
  pub Resolver : Type 0
  pub new_resolver : ResolverOptions → Resolver
  pub fetcher : Resolver → Text → World → Result Fetcher × World

-- The transport: a TLS configuration is made if there is none.
unfoldable pub setup_transport : Bool → Transport → Transport
setup_transport verify t = if verify then t else record t { tls_config = some true }

-- The options of the registry.
unfoldable pub registry_opts : Bool → Client → List RegistryOpt
registry_opts verify client =
    with_client client
    ∷ with_authorizer (record { auth_client = client; auth_creds = λ host. ([], []) })
    ∷ (if verify then [] else with_plain_http ∷ [])

module _ {World : Type 0} (D : Docker World) where
  -- `SetupOCIRegistryResolver`; the options may be nil.
  unfoldable pub setup_oci_registry_resolver : Bool → Option D.ResolverOptions → D.Resolver
  unfolding setup_transport registry_opts
  setup_oci_registry_resolver verify opts =
      let client : Client = record {
        ranged = true;
        base = setup_transport verify D.default_transport;
      } in
      let o : D.ResolverOptions = elim opts [ none ↦ D.no_options | some o ↦ o ] in
      D.new_resolver (D.set_hosts (registry_opts verify client) o)

  -- `RangeResolver.Fetcher`: the fetcher of the resolver, as the inner one of a `RangeFetcher`.
  abbrev pub range_fetcher : D.Resolver → Text → World → Result Fetcher × World
  range_fetcher r ref w = D.fetcher r ref w
