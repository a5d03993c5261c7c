-- ===== src/Settings/Addresses.antt =====
-- The addresses that validate_upstream_url of src/lib.rs accepts.
use nano_rpc_gateway.Prelude.{
  String, Bool, true, false, not, ◌||◌, List, Option, none, some, ◌≡◌, ◌↔◌, arith,
}
use nano_rpc_gateway.Prelude.Text.{is_blank}
use nano_rpc_gateway.Prelude.Result.{
  Result, ok, ◌>>◌, fail_if, map_err, >>_iff, >>=_ok_iff, fail_if_iff, map_err_iff,
}
use nano_rpc_gateway.Json.{is_some_and}
use nano_rpc_gateway.Error.{GatewayError}
use nano_rpc_gateway.Bridge.{is_present}
use nano_rpc_gateway.Validate.Params.{is_one_of}
use nano_rpc_gateway.Upstream.Endpoint.{
  Url, is_none, url_error, scheme_error, password_error, validate_upstream_url,
}

-- An address with one of the schemes, a host, and no password.
abbrev pub IsUpstream : (String → Result String Url) → List String → String → Type 0
IsUpstream parse_url schemes address =
    (url : Url) × (parse_url address ≡ ok url)
    × (is_one_of schemes url.scheme ≡ true)
    × (is_present url.host_str ≡ true)
    × (is_some_and url.password (λ p. not (is_blank p)) ≡ false)

host_iff :
    (listed : Bool) (host : Option String)
    → ((not listed || is_none host) ≡ false) ↔ ((listed ≡ true) × (is_present host ≡ true))
host_iff listed none = ground arith
host_iff listed (some h) = ground arith

-- The checks of an address that has been parsed.
abbrev check_url : List String → Url → Result GatewayError (Unit {0})
check_url schemes url =
    fail_if (not (is_one_of schemes url.scheme) || is_none url.host_str) (scheme_error schemes)
    >> fail_if (is_some_and url.password (λ p. not (is_blank p))) password_error

pub validate_upstream_url_iff :
    (parse_url : String → Result String Url) (address : String) (schemes : List String)
    → (validate_upstream_url parse_url address schemes ≡ ok tt)
      ↔ IsUpstream parse_url schemes address
unfolding validate_upstream_url
validate_upstream_url_iff parse_url address schemes =
    let whole = >>=_ok_iff (map_err url_error (parse_url address)) (check_url schemes) tt in
    let both = λ (url : Url).
      >>_iff
        (fail_if (not (is_one_of schemes url.scheme) || is_none url.host_str)
          (scheme_error schemes))
        (fail_if (is_some_and url.password (λ p. not (is_blank p))) password_error) in
    (
      λ h.
          let (url, parsed, checked) = whole.0 h in
          let (addressed, open_) = (both url).0 checked in
          let (listed, host) =
            (host_iff (is_one_of schemes url.scheme) url.host_str).0
              ((fail_if_iff _ (scheme_error schemes)).0 addressed) in
          (
            url,
            (map_err_iff url_error (parse_url address) url).0 parsed,
            listed,
            host,
            (fail_if_iff _ password_error).0 open_,
          ),
      λ (url, parsed, listed, host, open_). whole.1 (
        url,
        (map_err_iff url_error (parse_url address) url).1 parsed,
        (both url).1 (
          (fail_if_iff _ (scheme_error schemes)).1
              ((host_iff (is_one_of schemes url.scheme) url.host_str).1 (listed, host)),
          (fail_if_iff _ password_error).1 open_,
        ),
      ),
    )
