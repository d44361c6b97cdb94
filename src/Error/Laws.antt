-- ===== src/Error/Laws.antt =====
-- What a client learns from an error response.
use rgit.Common.{◌≡◌, refl, Str, text, arith}
use rgit.Error.{
  DbError, Error, into_response, not_found, unauthorized, forbidden, busy, conflict, invalid,
}

-- A response with status 500 is the same whatever the error was and whatever the libraries say
-- of it: its kind is "internal" and its message the fixed text.
pub into_response_opaque :
    (show_db : DbError → Str) (detail : Str) (e : Error)
    → (into_response show_db detail e).status ≡ 500
    → into_response show_db detail e
      ≡ record { status = 500; kind = text "internal"; message = text "internal server error" }
unfolding into_response
into_response_opaque show_db detail not_found h = ground arith
into_response_opaque show_db detail unauthorized h = ground arith
into_response_opaque show_db detail forbidden h = ground arith
into_response_opaque show_db detail busy h = ground arith
into_response_opaque show_db detail (conflict m) h = ground arith
into_response_opaque show_db detail (invalid m) h = ground arith
into_response_opaque show_db detail _ h = refl
