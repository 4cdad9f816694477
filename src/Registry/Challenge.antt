-- ===== src/Registry/Challenge.antt =====
-- What `auth` of src/lib/OCI/Registry/Client.cpp reads from the header Www-Authenticate. `none` is a
-- thrown std::out_of_range.
use oci_tool.Prelude.{ℕ, ◌+◌, ◌-◌, ◌%◌, Option, some, ◌++◌, Text, codes, length}
use oci_tool.Prelude.Strings.{find, find_past, substr, substr_n, size_mod}
use oci_tool.Prelude.Options.{◌>>=◌}
use oci_tool.Registry.Location.{split_location}

-- A difference of two size_t.
minus : ℕ → ℕ → ℕ
minus a b = (a + (size_mod - b)) % size_mod

-- What stands between the quotes of realm="...".
quoted : Text → Option Text
unfolding minus
quoted s =
    substr_n s ((find s b'"' + 1) % size_mod) (minus (length s) ((find s b'"' + 2) % size_mod))

-- (realm, service)
read_hint : Text → Option (Text × Text)
unfolding minus quoted
read_hint hint = do
  realm ← substr_n hint 0 (find hint b',')
  realm' ← quoted realm
  service ←
      substr_n hint ((find hint b',' + 1) % size_mod)
        (minus (minus (find_past hint b',' ((find hint b',' + 1) % size_mod)) (find hint b',')) 1)
  service' ← quoted service
  some (realm', service')

-- (proto, domain, location with the query)
unfoldable pub challenge : Text → Text → Option (Text × Text × Text)
unfolding read_hint
challenge www_auth scope = do
  auth_type ← substr_n www_auth 0 (find www_auth b' ')
  hint ← substr www_auth ((find www_auth b' ' + 1) % size_mod)
  (realm, service) ← read_hint hint
  (proto, domain, location) ← split_location realm
  some (proto, domain, location ++ codes "?service=" ++ service ++ codes "&scope=" ++ scope)
