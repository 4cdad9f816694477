-- ===== src/Dir/AsClient/Source.antt =====
-- A directory tree as the source of a copy.
use oci_tool.Prelude.{
  ℕ, zero, suc, Bool, true, false, some, List, [], ◌∷◌, Text, codes, length, take, drop, leb, ◌&&◌,
  if◌then◌else◌, Exec, bind-keeps, pure, Option-cases, inl, inr,
}
use oci_tool.Prelude.Dict.{lookup}
use oci_tool.Json.{JsonLib}
use oci_tool.Json.Stream.{Stream}
use oci_tool.Filesystem.{Disk, contents}
use oci_tool.Filesystem.Paths.{join}
use oci_tool.Dir.{Dir}
use oci_tool.Dir.Blobs.{read_loop, fetch_blob, buffer_size}
use oci_tool.Dir.AsClient.{dir_client}
use oci_tool.Copy.Images.Kept.{IsHonest}

module _ {S : Type 0} (P : S → Type 0) (call_back : List ℕ → Exec S Bool)
    (keeps : (part : List ℕ) (s : S) → P s → P (call_back part s).1) where
  read_loop_keeps :
      (size fuel : ℕ) (rest : List ℕ) (s : S) → P s → P (read_loop size fuel rest call_back s).1
  unfolding read_loop
  read_loop_keeps size zero rest s p = p
  read_loop_keeps size (suc fuel) [] s p = p
  read_loop_keeps size (suc fuel) (x ∷ rest) s p =
      let p' = keeps (take size (x ∷ rest)) s p in
      bind-keeps P (call_back (take size (x ∷ rest))) _ s p' λ accepted.
        by_test (accepted && leb size (length (x ∷ rest))) accepted
          (read_loop_keeps size fuel (drop size (x ∷ rest)) _ p') p'
    where
      by_test :
          (more accepted : Bool) {s : S}
          → P (read_loop size fuel (drop size (x ∷ rest)) call_back s).1
          → P s
          → P
              ((if more
                  then read_loop size fuel (drop size (x ∷ rest)) call_back
                  else pure accepted)
                s).1
      by_test true accepted p q = p
      by_test false accepted p q = q

  fetch_blob_keeps :
      (d : Dir) (disk : Disk) (sha : Text) (s : S) → P s → P (fetch_blob d disk sha call_back s).1
  unfolding fetch_blob
  fetch_blob_keeps d disk sha s p =
      elim (Option-cases (lookup (join (join d.tree_root (codes "blobs")) sha) disk.nodes)) [
        | inl none_there ↦ rw (none_there, fetch_blob) p
        | inr (n, at) ↦
            rw (at, fetch_blob)
              (read_loop_keeps buffer_size (suc (length (contents (some n)))) (contents (some n)) s
                p)
      ]

pub dir_client-IsHonest :
    (sha256_hex : List ℕ → Text) (J : JsonLib) (S : Stream J) → IsHonest (dir_client sha256_hex J S)
dir_client-IsHonest sha256_hex J S T P call_back name sha x keeps p =
    fetch_blob_keeps P call_back keeps x.0.0 x.0.1.disk sha x.1 p
