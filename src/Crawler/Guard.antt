-- ===== src/Crawler/Guard.antt =====
-- infrastructure/crawler/ssrf_guard.py. `ipaddress.ip_address` and the resolver are the record `Network`.
use hungrx_agent.Prelude.{Bool, true, false, ◌||◌, Option, none, some, List, any, if◌then◌else◌}
use hungrx_agent.Text.{Text}

-- An address as `ipaddress` classifies it
pub record IpAddress : Type 0 where
  pub is_private : Bool
  pub is_loopback : Bool
  pub is_link_local : Bool
  pub is_multicast : Bool
  pub is_reserved : Bool
  pub is_unspecified : Bool

pub record Network : Type 0 where
  -- `ipaddress.ip_address(s)`, none for a ValueError
  pub ip_address : Text → Option IpAddress
  -- the addresses of `socket.getaddrinfo(host, None)`, none for a gaierror
  pub resolve : Text → Option (List Text)

unfoldable pub is_unsafe_ip : Option IpAddress → Bool
is_unsafe_ip none = false
is_unsafe_ip (some ip) =
    ip.is_private
    || (ip.is_loopback
        || (ip.is_link_local || (ip.is_multicast || (ip.is_reserved || ip.is_unspecified))))

module _ (net : Network) where
  -- `_is_unsafe_address`
  unfoldable pub is_unsafe_address : Text → Bool
  unfolding is_unsafe_ip
  is_unsafe_address address = is_unsafe_ip (net.ip_address address)

  unfoldable pub resolves_safely : Option (List Text) → Bool
  unfolding is_unsafe_address
  resolves_safely none = false
  resolves_safely (some addresses) = if any is_unsafe_address addresses then false else true

  -- `assert_safe_host`: false where it raises UnsafeHostError
  unfoldable pub is_safe_host : Text → Bool
  unfolding resolves_safely
  is_safe_host host = if is_unsafe_address host then false else resolves_safely (net.resolve host)
