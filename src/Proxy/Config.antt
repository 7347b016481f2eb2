-- ===== src/Proxy/Config.antt =====
-- The data of src/proxy/config.rs. Reading and writing the file is left out.
use dip_rust.Base.{ℕ, List, [], ◌∷◌}
use dip_rust.Text.{Text, codes}

pub record Route : Type 0 where
  pub domain : Text
  pub upstream : Text

pub record ProxyConfig : Type 0 where
  pub http_port : ℕ
  pub https_port : ℕ
  pub dns_port : ℕ
  pub tlds : List Text
  pub upstream_dns : List Text
  pub routes : List Route

abbrev pub default_tlds : List Text
default_tlds = codes "test" ∷ []

abbrev pub default_upstream_dns : List Text
default_upstream_dns = codes "1.1.1.1" ∷ codes "8.8.8.8" ∷ []

abbrev pub default_config : ProxyConfig
default_config = record {
  http_port = 80;
  https_port = 443;
  dns_port = 5354;
  tlds = default_tlds;
  upstream_dns = default_upstream_dns;
  routes = [];
}
