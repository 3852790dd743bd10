-- ===== src/HostFunctions/Http/Bodies.antt =====
-- What the response to a plugin has of a body.
use reglet_hostlib.Base.{
  ℕ, ◌<◌, ◌≤◌, ◌≡◌, refl, sym, false, Option, none, some, List, arith, length, take, take-all,
}
use reglet_hostlib.Base.Text.{Str}
use reglet_hostlib.Netutil.LimitedReader.{IoError, ReadResult, size_limit_exceeded, Reader}
use reglet_hostlib.Netutil.LimitedReader.Streams.{
  Ending, IsStream, Flagged, shorter, fits, Outcome, whole, cut,
}
use reglet_hostlib.Netutil.LimitedReader.ReadAll.{read_all-Completes}
use reglet_hostlib.HostFunctions.Http.{HttpResponse, Head, body_response, read_http_response}

-- A response with the first bytes of a body, and a flag.
pub record Delivers (ending : Ending) (h : Head) (body : List ℕ) (max_body_size : ℕ)
    (r : Option HttpResponse) : Type 0 where
  pub given : HttpResponse
  pub answers : r ≡ some given
  pub body_start : given.body ≡ take max_body_size body
  pub truncated : Flagged ending max_body_size (length body) given.body_truncated
  pub no_error : given.error ≡ none
  pub status : given.status_code ≡ h.status_code

whole-le : (ending : Ending) (limit len : ℕ) → Flagged ending limit len false → len ≤ limit
whole-le ending limit len (shorter h) = omega arith
whole-le ending limit len (fits h p e) = omega arith

outcome-Delivers :
    (show : IoError → Str) (ending : Ending) (h : Head) (body : List ℕ) (max_body_size : ℕ)
    (out : ReadResult)
    → Outcome ending max_body_size body out
    → Delivers ending h body max_body_size (some (body_response show h out))
outcome-Delivers show ending h body max _ (whole f) = record {
  given = body_response show h (body, none);
  answers = refl;
  body_start = sym (take-all max body (whole-le ending max (length body) f));
  truncated = f;
  no_error = refl;
  status = refl;
}
outcome-Delivers show ending h body max _ (cut limit count f) = record {
  given = body_response show h (take max body, some (size_limit_exceeded limit count));
  answers = refl;
  body_start = refl;
  truncated = f;
  no_error = refl;
  status = refl;
}

-- However a body is divided by the reads, if they give all of it without an error,
-- `readHTTPResponse` ends with the first `maxBodySize` bytes and no error. It flags them as
-- truncated if the body has more bytes, or no byte is allowed, and not if it has fewer; a body of
-- just that size, not 0, is flagged if its end comes in a read of its own, and not if it comes with
-- the last bytes.
pub read_http_response-Delivers :
    {S : Type 0} (show : IoError → Str) (ending : Ending) (left : S → List ℕ) (reader : Reader S)
    (fuel room : ℕ) (h : Head) (s : S) (max_body_size : ℕ)
    → IsStream ending left reader
    → 0 < room
    → length (left s) < fuel
    → Delivers ending h
        (left s)
        max_body_size
        (read_http_response show reader fuel room h s max_body_size)
unfolding read_http_response
read_http_response-Delivers show ending left reader fuel room h s max stream p f =
    let c = read_all-Completes ending left reader fuel room s max stream p f in
    rw (read_http_response, c.reads) (outcome-Delivers show ending h (left s) max c.out c.outcome)
