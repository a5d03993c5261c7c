-- ===== src/Settings/Valid.antt =====
-- What the check of a configuration asks, and what it leaves.
use nano_rpc_gateway.Prelude.{
  ℕ, ◌≤◌, String, Bool, true, false, not, ◌&&◌, ◌||◌, List, [], ◌∷◌, Option, none, some, ◌≡◌, refl,
  ◌↔◌, arith, is_empty, leb, All, ap, subst, if◌then◌else◌,
}
use nano_rpc_gateway.Prelude.Result.{
  Result, ok, ◌>>◌, fail_if, for_each, >>_iff, >>_ok_iff, fail_if_iff, map_err_iff, ok-injective,
}
use nano_rpc_gateway.Error.{GatewayError}
use nano_rpc_gateway.Bridge.{is_present}
use nano_rpc_gateway.Upstream.Endpoint.{Url, validate_upstream_url}
use nano_rpc_gateway.Settings.Addresses.{IsUpstream, validate_upstream_url_iff}
use nano_rpc_gateway.Settings.{
  Config, with_peers, same_bool, empty_error, timeout_error, tls_error, cors_error, public_error,
  check_rpc_url, check_ws_url, check_origin, check_public_url, check_rest, validate,
}

for_each_iff :
    {A : Type 0} (check : A → Result GatewayError (Unit {0})) (xs : List A)
    → (for_each check xs ≡ ok tt) ↔ All (λ x. check x ≡ ok tt) xs
for_each_iff check [] = (λ _. tt, λ _. refl)
for_each_iff check (x ∷ xs) =
    let both = >>_iff (check x) (for_each check xs) in
    let rest = for_each_iff check xs in
    (
      λ h. let (here, later) = both.0 h in (here, rest.0 later),
      λ (here, later). both.1 (here, rest.1 later),
    )

-- The optional members of a pair are both there, or both not.
abbrev pub Together : Option String → Option String → Type 0
Together a b = is_present a ≡ is_present b

same_bool_iff : (a b : Bool) → (same_bool a b ≡ true) ↔ (a ≡ b)
same_bool_iff true true = (λ _. refl, λ _. refl)
same_bool_iff true false = (λ h. cc, λ h. cc)
same_bool_iff false true = (λ h. cc, λ h. cc)
same_bool_iff false false = (λ _. refl, λ _. refl)

All-iff :
    {A : Type 0} (P Q : A → Type 0) (xs : List A) → ((x : A) → P x ↔ Q x) → All P xs ↔ All Q xs
All-iff P Q [] h = (λ _. tt, λ _. tt)
All-iff P Q (x ∷ xs) h =
    let rest = All-iff P Q xs h in
    (λ (here, later). ((h x).0 here, rest.0 later), λ (here, later). ((h x).1 here, rest.1 later))

abbrev pub http : List String
http = "http" ∷ "https" ∷ []

abbrev pub ws : List String
ws = "ws" ∷ "wss" ∷ []

abbrev pub IsPublic : (String → Result String Url) → Option String → Type 0
IsPublic parse_url none = Unit
IsPublic parse_url (some address) = IsUpstream parse_url http address

-- The peers for work: the upstreams where no peer is given.
abbrev pub peers_or : List String → List String → List String
peers_or [] upstreams = upstreams
peers_or (p ∷ ps) upstreams = p ∷ ps

abbrev pub filled : Config → Config
filled c = record c { work_peer_urls = peers_or c.work_peer_urls c.node_rpc_urls }

with_peers-filled : (c : Config) → with_peers c ≡ filled c
with_peers-filled c =
    ap (λ urls. record c { work_peer_urls = urls }) (go c.work_peer_urls c.node_rpc_urls)
  where
    go :
        (peers upstreams : List String)
        → (if is_empty peers then upstreams else peers) ≡ peers_or peers upstreams
    go [] upstreams = refl
    go (p ∷ ps) upstreams = refl

-- A configuration that the gateway can run with.
pub record Valid (parse_url : String → Result String Url)
    (header_value : String → Result String (Unit {0})) (c : Config) : Type 0 where
  pub upstreams : (is_empty c.node_rpc_urls || is_empty c.node_ws_urls) ≡ false
  pub rpc_urls : All (IsUpstream parse_url http) c.node_rpc_urls
  pub ws_urls : All (IsUpstream parse_url ws) c.node_ws_urls
  pub peer_urls : All (IsUpstream parse_url http) c.work_peer_urls
  pub timeout : (100 ≤ c.local_work_timeout_ms) × (c.local_work_timeout_ms ≤ 300_000)
  pub tls : Together c.tls_cert c.tls_key
  pub origins : All (λ o. header_value o ≡ ok tt) c.cors_origins
  pub address : IsPublic parse_url c.public_url

module _ (parse_url : String → Result String Url)
    (header_value : String → Result String (Unit {0})) where
  urls_iff :
      (schemes urls : List String)
      → (for_each (λ url. validate_upstream_url parse_url url schemes) urls ≡ ok tt)
        ↔ All (IsUpstream parse_url schemes) urls
  urls_iff schemes urls =
      let each = for_each_iff (λ url. validate_upstream_url parse_url url schemes) urls in
      let same =
        All-iff (λ url. validate_upstream_url parse_url url schemes ≡ ok tt)
          (IsUpstream parse_url schemes) urls
          (λ url. validate_upstream_url_iff parse_url url schemes) in
      (λ h. same.0 (each.0 h), λ h. each.1 (same.1 h))

  origins_iff :
      (origins : List String)
      → (for_each (check_origin parse_url header_value) origins ≡ ok tt)
        ↔ All (λ o. header_value o ≡ ok tt) origins
  origins_iff origins =
      let each = for_each_iff (check_origin parse_url header_value) origins in
      let same =
        All-iff (λ o. check_origin parse_url header_value o ≡ ok tt) (λ o. header_value o ≡ ok tt)
          origins (λ o. map_err_iff cors_error (header_value o) tt) in
      (λ h. same.0 (each.0 h), λ h. each.1 (same.1 h))

  IsPublic-iff :
      (url : Option String)
      → (check_public_url parse_url header_value url ≡ ok tt) ↔ IsPublic parse_url url
  IsPublic-iff none = (λ _. tt, λ _. refl)
  IsPublic-iff (some url) =
      let there = map_err_iff public_error (validate_upstream_url parse_url url http) tt in
      let valid = validate_upstream_url_iff parse_url url http in
      (λ h. valid.0 (there.0 h), λ h. there.1 (valid.1 h))

  timeout_iff : (n : ℕ) → (not (leb 100 n && leb n 300_000) ≡ false) ↔ ((100 ≤ n) × (n ≤ 300_000))
  timeout_iff n = ground arith

  tls_iff :
      (cert key : Option String)
      → (not (same_bool (is_present cert) (is_present key)) ≡ false) ↔ Together cert key
  tls_iff cert key =
      let same = same_bool_iff (is_present cert) (is_present key) in
      (λ h. same.0 (ground (arith, h)), λ h. ground (arith, same.1 h))

  -- The part of the checks after the peers are filled in.
  abbrev Rest : Config → Type 0
  Rest c =
      All (IsUpstream parse_url http) c.work_peer_urls
      × ((100 ≤ c.local_work_timeout_ms) × (c.local_work_timeout_ms ≤ 300_000))
      × Together c.tls_cert c.tls_key
      × All (λ o. header_value o ≡ ok tt) c.cors_origins
      × IsPublic parse_url c.public_url

  check_rest_iff : (c : Config) → (check_rest parse_url header_value c ≡ ok tt) ↔ Rest c
  check_rest_iff c =
      let timeout = not (leb 100 c.local_work_timeout_ms && leb c.local_work_timeout_ms 300_000) in
      let tls = not (same_bool (is_present c.tls_cert) (is_present c.tls_key)) in
      let origins = for_each (check_origin parse_url header_value) c.cors_origins in
      let public_ = check_public_url parse_url header_value c.public_url in
      let peers = for_each (check_rpc_url parse_url header_value) c.work_peer_urls in
      let s4 = >>_iff origins public_ in
      let s3 = >>_iff (fail_if tls tls_error) (origins >> public_) in
      let s2 =
        >>_iff (fail_if timeout timeout_error) (fail_if tls tls_error >> (origins >> public_)) in
      let s1 =
        >>_iff peers
          (fail_if timeout timeout_error >> (fail_if tls tls_error >> (origins >> public_))) in
      (
        λ h.
            let (p, h1) = s1.0 h in
            let (t, h2) = s2.0 h1 in
            let (l, h3) = s3.0 h2 in
            let (o, u) = s4.0 h3 in
            (
              (urls_iff http c.work_peer_urls).0 p,
              (timeout_iff c.local_work_timeout_ms).0 ((fail_if_iff timeout timeout_error).0 t),
              (tls_iff c.tls_cert c.tls_key).0 ((fail_if_iff tls tls_error).0 l),
              (origins_iff c.cors_origins).0 o,
              (IsPublic-iff c.public_url).0 u,
            ),
        λ (p, t, l, o, u). s1.1 (
          (urls_iff http c.work_peer_urls).1 p,
          s2.1 (
            (fail_if_iff timeout timeout_error).1 ((timeout_iff c.local_work_timeout_ms).1 t),
            s3.1 (
              (fail_if_iff tls tls_error).1 ((tls_iff c.tls_cert c.tls_key).1 l),
              s4.1 ((origins_iff c.cors_origins).1 o, (IsPublic-iff c.public_url).1 u),
            ),
          ),
        ),
      )

  validate-with_peers :
      (c used : Config)
      → (validate parse_url header_value c ≡ ok used)
        ↔ (Valid parse_url header_value (with_peers c) × (with_peers c ≡ used))
  unfolding validate
  validate-with_peers c used =
      let full = with_peers c in
      let upstreams = is_empty c.node_rpc_urls || is_empty c.node_ws_urls in
      let rpc = for_each (check_rpc_url parse_url header_value) c.node_rpc_urls in
      let ws_ = for_each (check_ws_url parse_url header_value) c.node_ws_urls in
      let rest = check_rest parse_url header_value full in
      let s4 = >>_ok_iff rest (ok full) used in
      let s3 = >>_ok_iff ws_ (rest >> ok full) used in
      let s2 = >>_ok_iff rpc (ws_ >> (rest >> ok full)) used in
      let s1 = >>_ok_iff (fail_if upstreams empty_error) (rpc >> (ws_ >> (rest >> ok full))) used in
      (
        λ h.
            let (u, h1) = s1.0 h in
            let (r, h2) = s2.0 h1 in
            let (w, h3) = s3.0 h2 in
            let (checked, same) = s4.0 h3 in
            let (peers, timeout, tls, origins, address) = (check_rest_iff full).0 checked in
            (
              record {
                upstreams = (fail_if_iff upstreams empty_error).0 u;
                rpc_urls = (urls_iff http c.node_rpc_urls).0 r;
                ws_urls = (urls_iff ws c.node_ws_urls).0 w;
                peer_urls = peers;
                timeout = timeout;
                tls = tls;
                origins = origins;
                address = address;
              },
              ok-injective same,
            ),
        λ (v, same). s1.1 (
          (fail_if_iff upstreams empty_error).1 v.upstreams,
          s2.1 (
            (urls_iff http c.node_rpc_urls).1 v.rpc_urls,
            s3.1 (
              (urls_iff ws c.node_ws_urls).1 v.ws_urls,
              s4.1 (
                (check_rest_iff full).1 (v.peer_urls, v.timeout, v.tls, v.origins, v.address),
                ap ok same,
              ),
            ),
          ),
        ),
      )

  pub validate_iff :
      (c used : Config)
      → (validate parse_url header_value c ≡ ok used)
        ↔ (Valid parse_url header_value (filled c) × (filled c ≡ used))
  validate_iff c used =
      subst
        (λ k.
          (validate parse_url header_value c ≡ ok used)
          ↔ (Valid parse_url header_value k × (k ≡ used)))
        (with_peers-filled c) (validate-with_peers c used)
