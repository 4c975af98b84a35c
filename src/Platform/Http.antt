-- ===== src/Platform/Http.antt =====
-- What the platform client asks of httpx, asyncio and the archive file. `W` is the outside.
use ditto_screener.Prelude.{ℕ, String, Bool, true, false, Option}
use ditto_screener.Prelude.Results.{Exn, Result, http_error}
use ditto_screener.Prelude.Actions.{Action, lift}
use ditto_screener.Json.{Json}

-- A response: its status, its parsed body and its `etag` header.
pub record Response : Type 0 where
  pub status_code : ℕ
  pub body : Json
  pub etag : Option String

-- `except httpx.HTTPError`
abbrev pub is_transport : Exn → Bool
is_transport http_error = true
is_transport _ = false

-- What one round of a retry loop leads to: the function returns or raises, or it sleeps and goes on.
pub data Round (A : Type 0) : Type 0 where
  over : Result A → Round A
  again : Round A

abbrev pub settle : {W A : Type 0} → Round A → Action W A → Action W A
settle (over r) rest = lift r
settle again rest = rest
