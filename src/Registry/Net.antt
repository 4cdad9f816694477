-- ===== src/Registry/Net.antt =====
-- What src/lib/OCI/Registry/Client.cpp uses of cpp-httplib, std::chrono and the number formats of the
-- standard library, as parameters. The world is all that a request may change or depend on.
pub mod Script
use oci_tool.Prelude.{ℕ, Bool, Option, List, Text, Exec}
use oci_tool.Json.{JsonLib}

pub data Method : Type 0 where
  get : Method
  head : Method
  post : Method
  put : Method
  patch : Method

-- What a httplib::Client is made for: scheme, host and port, the basic authorization, and the proxy.
pub record Server : Type 0 where
  pub https : Bool
  pub host : Text
  pub port : ℕ
  pub credentials : Option (Text × Text)
  pub proxy : Option (Text × ℕ)

pub record Request : Type 0 where
  pub method : Method
  pub location : Text
  pub follow : Bool
  pub headers : List (Text × Text)
  pub body : Text
  pub content_type : Text

-- `header k` is the first value of that header, if there is one.
pub record Response : Type 0 where
  pub status : ℕ
  pub header : Text → Option Text
  pub body : Text

pub record Net (J : JsonLib) : Type 1 where
  pub World : Type 0
  -- no response stands for a result that converts to false
  pub send : Server → Request → World → Option Response × World
  -- a Get that hands its body to a callback, which works on a state of its own
  pub fetch :
      {S : Type 0} → Server → Request → (List ℕ → Exec S Bool) → Exec (World × S) (Option Response)
  pub is_valid : Server → Bool
  -- `json::parse`: `none` is a thrown parse_error, which is a json exception
  pub parse : Text → Option J.Json
  -- std::chrono: time points and seconds, `get<int>` as seconds, and `std::get_time` with `mktime`
  pub Time : Type 0
  pub Seconds : Type 0
  pub now : World → Time × World
  pub after : Time → Seconds → Time
  pub is_past : Time → Time → Bool
  pub minute : Seconds
  -- what a new TokenResponse holds
  pub unset_seconds : Seconds
  pub epoch : Time
  pub get_seconds : J.Json → Option Seconds
  pub read_time : Text → Time
  -- `std::stoul`, `none` for its logic_error, and `std::to_string`
  pub stoul : Text → Option ℕ
  pub to_string : ℕ → Text
  -- `std::getenv`, and `std::stoi` of a port that is kept as a std::uint16_t
  pub getenv : Text → Option Text
  pub stoi_port : Text → Option ℕ
