-- ===== src/Registry/Location.antt =====
-- The texts that src/lib/OCI/Registry/Client.cpp takes apart: `splitLocation`, and the domain that
-- the constructor reads from its argument. `none` is a thrown std::out_of_range.
pub mod Laws
use oci_tool.Prelude.{
  ℕ, ◌+◌, ◌%◌, ◌≡◌, Bool, not, ◌&&◌, Option, none, some, List, [], ◌∷◌, Text, text_eq, nat_eq,
  codes, ◌==◌, if◌then◌else◌,
}
use oci_tool.Prelude.Strings.{find, substr, substr_n, size_mod, npos}
use oci_tool.Prelude.Options.{◌>>=◌}

-- (proto, domain, uri). The sums of positions wrap around, so a location without a slash loses its
-- first character.
split : Text → Option (Text × Text × Text)
split location = do
  proto ← substr_n location 0 (find location b':')
  rest ← substr location ((find location b'/' + 2) % size_mod)
  domain ← substr_n rest 0 (find rest b'/')
  uri ← substr rest (find rest b'/')
  some (proto, domain, uri)

unfoldable pub split_location : Text → Option (Text × Text × Text)
unfolding split
split_location [] = some ([], [], [])
split_location (c ∷ s) = split (c ∷ s)

-- `location.find( "//" ) != npos`
has_slashes : Text → Bool
has_slashes [] = Bool.false
has_slashes (a ∷ []) = Bool.false
has_slashes (a ∷ b ∷ s) = if a == b'/' && b == b'/' then Bool.true else has_slashes (b ∷ s)

-- The domain that the constructor keeps.
strip_slashes : Text → Option Text
unfolding has_slashes
strip_slashes location = if has_slashes location then substr location 2 else some location

before_slash : Text → Option Text
before_slash resource =
    if not (find resource b'/' == npos)
    then substr_n resource 0 (find resource b'/')
    else some resource

docker_hub : Text → Text
docker_hub domain = if domain == codes "docker.io" then codes "registry-1.docker.io" else domain

unfoldable pub domain_of : Text → Option Text
unfolding strip_slashes before_slash docker_hub
domain_of location = do
  resource ← strip_slashes location
  domain ← before_slash resource
  some (docker_hub domain)
