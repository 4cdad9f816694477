-- ===== src/CommandLine/Endings.antt =====
-- How oci-sync, bin/oci-sync.cpp, ends.
use oci_tool.Prelude.{◌≢◌, none, Text, text_eq, nat_eq, Outcome, returns}
use oci_tool.CommandLine.{Parts, Ending, terminated, caught}

module _ (P : Parts) (no_abort : (t : Text) (w : P.World) → (P.open_dir t w).0 ≢ returns none)
    (no_crash : (s d : P.Client) (w : P.World) → (P.sync_client s d w).0 ≢ returns none)
    (no_crash_of_file : (s : P.Domains) (d : P.Client) (w : P.World)
      → (P.sync_file s d w).0 ≢ returns none) where
  -- An ending of the guarded part that is not an abort.
  abbrev Calm : Outcome Ending → Type 0
  Calm o = caught P o ≢ terminated
