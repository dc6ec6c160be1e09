-- ===== src/Http.antt =====
-- The HTTP frontend (frontend/http): bencoding, the parser of requests, the writer of responses and
-- the routes.
--
-- Go's HTTP server hands a route what it read of a request; its functions on
-- addresses are parameters.
pub mod Bencode
pub mod Parser
pub mod Writer
pub mod Configs
pub mod Frontend
pub mod Serving
use chihaya.Base.{ℕ, Bool, Bytes, Option, Result}

pub record ParseOptions : Type 0 where
  pub allow_ip_spoofing : Bool
  pub real_ip_header : Bytes
  pub max_num_want : ℕ
  pub default_num_want : ℕ
  pub max_scrape_info_hashes : ℕ

-- What the frontend reads of an http.Request; `header` is `Header.Get`.
pub record Request : Type 0 where
  pub request_uri : Bytes
  pub remote_addr : Bytes
  pub header : Bytes → Bytes

-- `net.ParseIP`, which gives nil for what is no address, the host of `net.SplitHostPort`, and
-- `String` of a net.IP.
pub record Net : Type 0 where
  pub parse_ip : Bytes → Option Bytes
  pub split_host : Bytes → Result Bytes
  pub ip_string : Bytes → Bytes
