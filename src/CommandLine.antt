-- ===== src/CommandLine.antt =====
-- The program oci-sync, bin/oci-sync.cpp, behind its parser of arguments, and the table of clients of
-- include/OCI/Factory.hpp. The set-up of the log and of the cursor is left out.
pub mod Endings
use oci_tool.Prelude.{
  ℕ, ◌+◌, ◌%◌, Bool, true, false, ◌&&◌, ◌||◌, Option, none, some, List, [], ◌∷◌, Text, text_eq,
  nat_eq, codes, ◌==◌, if◌then◌else◌, Exec, Exception, runtime_error, filesystem_error, parse_error,
  json_error, logic_error, null_result, Outcome, returns, throws, diverges, throw, pure, in_range,
  ◌>>=◌, ◌>>◌,
}
use oci_tool.Prelude.Strings.{find, substr, substr_n, size_mod, npos}
use oci_tool.Copy.{is_runtime}

-- The options and positions that the program reads.
pub record Args : Type 0 where
  pub source : Text
  pub destination : Text
  pub username : Text
  pub password : Text

-- What `args::ArgumentParser::ParseCLI` does.
pub data Parsed : Type 0 where
  parsed : Args → Parsed
  help : Parsed
  parse_failure : Parsed
  completion : Parsed
  validation_failure : Parsed

-- How a run ends: with a status, by std::terminate or std::abort, or not at all.
pub data Ending : Type 0 where
  exited : ℕ → Ending
  terminated : Ending
  endless : Ending

-- The constructors of the clients, and `Sync::execute`. A directory that cannot be opened aborts, and
-- an exception of a task in a worker ends the program by std::terminate: both are `none`.
pub record Parts : Type 1 where
  pub World : Type 0
  pub Client : Type 0
  pub Domains : Type 0
  pub open_dir : Text → Exec World (Option Client)
  pub open_registry : Text → Text → Text → Exec World Client
  pub open_yaml : Text → Exec World Domains
  pub sync_client : Client → Client → Exec World (Option (Unit {0}))
  pub sync_file : Domains → Client → Exec World (Option (Unit {0}))

begins : Text → Text → Bool
begins [] s = true
begins (c ∷ t) [] = false
begins (c ∷ t) (x ∷ s) = c == x && begins t s

-- `s.find( t ) != npos`
unfoldable pub contains : Text → Text → Bool
unfolding begins
contains t [] = begins t []
contains t (x ∷ s) = begins t (x ∷ s) || contains t s

-- What stands before and behind the first colon.
both : Option Text → Option Text → Option (Text × Text)
both (some proto) (some location) = some (proto, location)
both _ _ = none

unfoldable pub parts_of : Text → Option (Text × Text)
unfolding both
parts_of arg = both (substr_n arg 0 (find arg b':')) (substr arg ((find arg b':' + 1) % size_mod))

module _ (P : Parts) where
  abbrev pub Calls : Type 0 → Type 0
  Calls A = Exec P.World A

  -- `CLIENT_MAP.at( proto )( location, username, password )`, where `none` is an abort.
  unfoldable pub client_of : Text → Text → Text → Text → Calls (Option P.Client)
  client_of proto location username password =
      if proto == codes "dir"
      then P.open_dir location
      else if proto == codes "docker"
      then (P.open_registry location username password >>= λ c. pure (some c))
      else throw logic_error

  -- A handler that takes each exception, and one for runtime_error alone.
  unfoldable pub failure_of : Exception → Ending
  failure_of e = if is_runtime e then exited 1 else terminated

  synced : Option (Unit {0}) → Ending
  synced none = terminated
  synced (some done) = exited 0

  unfoldable pub sync_into : P.Client → Option P.Client → Calls Ending
  unfolding synced
  sync_into destination none = pure terminated
  sync_into destination (some source) = P.sync_client source destination >>= λ o. pure (synced o)

  -- The password of the source stands in both places; both are always empty.
  unfoldable pub sync_from : Text → Text → P.Client → Calls Ending
  unfolding client_of sync_into synced
  sync_from proto location destination =
      if proto == codes "yaml"
      then (do domains ← P.open_yaml location; o ← P.sync_file domains destination; pure (synced o))
      else client_of proto location [] [] >>= sync_into destination

  unfoldable pub caught : Outcome Ending → Ending
  caught (returns e) = e
  caught (throws e) = exited 1
  caught diverges = endless

  unfoldable pub sync_guarded : Text → Text → P.Client → P.World → Ending × P.World
  unfolding sync_from caught
  sync_guarded proto location destination w =
      let (o, w') = sync_from proto location destination w in (caught o, w')

  unfoldable pub with_destination :
      Text → Text → Outcome (Option P.Client) → P.World → Ending × P.World
  unfolding sync_guarded failure_of
  with_destination proto location (returns none) w = (terminated, w)
  with_destination proto location (returns (some d)) w = sync_guarded proto location d w
  with_destination proto location (throws e) w = (failure_of e, w)
  with_destination proto location diverges w = (endless, w)

  unfoldable pub run_parts :
      Args → Option (Text × Text) → Option (Text × Text) → P.World → Ending × P.World
  unfolding with_destination
  run_parts a (some (proto, location)) (some (dest_proto, dest_location)) w =
      let (o, w') = client_of dest_proto dest_location a.username a.password w in
      with_destination proto location o w'
  run_parts a _ _ w = (terminated, w)

  unfoldable pub run_args : Args → P.World → Ending × P.World
  unfolding run_parts
  run_args a w =
      if find a.source b':' == npos
      then (exited 1, w)
      else if find a.destination b':' == npos || contains (codes "yaml") a.destination
      then (exited 1, w)
      else run_parts a (parts_of a.source) (parts_of a.destination) w

  -- `main`
  unfoldable pub run : Parsed → P.World → Ending × P.World
  unfolding run_args
  run (parsed a) w = run_args a w
  run completion w = (exited 0, w)
  run help w = (exited 1, w)
  run parse_failure w = (exited 1, w)
  run validation_failure w = (exited 1, w)
