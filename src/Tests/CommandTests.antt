-- ===== src/Tests/CommandTests.antt =====
-- The program oci-sync with registries at both ends.
use oci_tool.Prelude.{
  ◌≡◌, refl, some, Option, List, [], Text, codes, text_beq, returns, throws, runtime_error, throw,
  pure, Exec, if◌then◌else◌,
}
use oci_tool.Prelude.Strings.{find, substr, substr_n}
use oci_tool.Json.Tree.{tree_json}
use oci_tool.Registry.Net.{Response}
use oci_tool.Registry.Net.Script.{scripted}
use oci_tool.Registry.Auth.{Client}
use oci_tool.Registry.Lifecycle.{login, proxy_value}
use oci_tool.Registry.Location.{domain_of}
use oci_tool.Registry.Queries.{ping}
use oci_tool.CommandLine.{Args, Parts, exited, parsed, run, parts_of, contains}

abbrev open_registry :
    Text → Text → Text → Exec (List (Option Response)) (Client tree_json scripted)
open_registry location username password w =
    let (o, c) = login tree_json scripted location username password w in (returns c, c.world)

-- No directory can be opened, and a client that is not secure cannot be copied from.
abbrev registries : Parts
registries = record {
  World = List (Option Response);
  Client = Client tree_json scripted;
  Domains = Unit {0};
  open_dir = λ t. throw (runtime_error t);
  open_registry = open_registry;
  open_yaml = λ t. throw (runtime_error t);
  sync_client = λ source destination w.
      if source.secure then (returns (some tt), w) else (throws (runtime_error []), w);
  sync_file = λ d destination. pure (some tt);
}

abbrev args : Args
args = record {
  source = codes "docker://quay.io";
  destination = codes "docker://hub.io";
  username = codes "u";
  password = codes "p";
}

fails : (run registries (parsed args) []).0 ≡ exited 1
unfolding run find codes contains parts_of substr_n substr text_beq login domain_of proxy_value ping
fails = refl
