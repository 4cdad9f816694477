-- ===== src/Schema1/Json/Lost.antt =====
-- What becomes of a manifest of schema 1 that is written as JSON.
use oci_tool.Prelude.{◌≡◌, none, text_eq, text_beq, codes}
use oci_tool.Json.{JsonLib, IsLawful}
use oci_tool.Schema1.{LegacyManifest}
use oci_tool.Schema1.Json.{legacy_from_json, legacy_to_json}

pub legacy_from_json-legacy_to_json :
    (J : JsonLib) (L : IsLawful J) (im filled : LegacyManifest)
    → legacy_from_json J (legacy_to_json J im) filled ≡ none
unfolding legacy_from_json legacy_to_json codes text_beq
legacy_from_json-legacy_to_json J L im filled = simp (L.find-set, L.find-empty, L.get_text-text)
