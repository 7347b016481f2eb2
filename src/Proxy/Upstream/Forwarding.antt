-- ===== src/Proxy/Upstream/Forwarding.antt =====
-- Which headers reach the upstream.
use dip_rust.Base.{Bool, ◌||◌, List, [], ◌∷◌, any}
use dip_rust.Proxy.Headers.{Headers}
use dip_rust.Text.{Text, codes, text_eq}

-- The headers that HTTP/1.1 gives a meaning for one connection only (RFC 2616, 13.5.1), with the
-- header that some clients send to a proxy in place of `Connection`.
abbrev pub connection_headers : List Text
connection_headers =
    codes "connection"
    ∷ codes "keep-alive"
    ∷ codes "proxy-authenticate"
    ∷ codes "proxy-authorization"
    ∷ codes "te"
    ∷ codes "trailer"
    ∷ codes "transfer-encoding"
    ∷ codes "upgrade"
    ∷ codes "proxy-connection"
    ∷ []

-- The names of one connection, and those that the proxy sets.
pub is_hop_by_hop : Text → Bool
is_hop_by_hop j = any (λ n. text_eq n j) connection_headers

pub is_set_by_proxy : Text → Bool
is_set_by_proxy j =
    text_eq (codes "host") j
    || text_eq (codes "x-forwarded-host") j
    || text_eq (codes "x-forwarded-proto") j
    || text_eq (codes "x-real-ip") j
    || text_eq (codes "x-forwarded-for") j
