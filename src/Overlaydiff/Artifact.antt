-- ===== src/Overlaydiff/Artifact.antt =====
-- internal/pkg/overlaydiff/artifact.go: `ValidateOverlayName`, `BuildArtifactManifest` and, of
-- `ValidateArtifact`, just the test that a path is normalised; its tests of the schema, of paths that
-- escape from rootfs and of files that exist are left out. The time of creation is an argument.
pub mod Selected
use warewulf.Common.{
  ℕ, Bool, true, false, ◌||◌, ◌&&◌, List, [], ◌∷◌, ◌++◌, ◌==◌, leb, all, if◌then◌else◌,
}
use warewulf.Common.Text.{Text, codes, text_eq, contains}
use warewulf.Common.Sort.{sort_texts}
use warewulf.Common.Results.{Result, ok, err}
use warewulf.Overlaydiff.Paths.{trim_space, normalize_rel_path}

abbrev pub artifact_schema_version : Text
artifact_schema_version = codes "v1"

pub record DecisionSummary : Type 0 where
  pub selected : ℕ
  pub skipped : ℕ
  pub unset : ℕ

pub record ArtifactManifest : Type 0 where
  pub schema_version : Text
  pub overlay_name : Text
  pub created_at : ℕ
  pub source_root : Text
  pub node_source : Text
  pub selected_paths : List Text
  pub summary : DecisionSummary

-- A byte of `[A-Za-z0-9._-]`
abbrev pub is_name_byte : ℕ → Bool
is_name_byte c =
    (leb b'A' c && leb c b'Z')
    || ((leb b'a' c && leb c b'z')
        || ((leb b'0' c && leb c b'9') || (c == b'.' || (c == b'_' || c == b'-'))))

-- `ValidateOverlayName`; of the two messages only which one it is.
pub data NameError : Type 0 where
  empty_name : NameError
  invalid_name : Text → NameError

pub data NameCheck : Type 0 where
  valid : NameCheck
  refused : NameError → NameCheck

unfoldable pub validate_overlay_name : Text → NameCheck
unfolding trim_space text_eq
validate_overlay_name name =
    let trimmed = trim_space name in
    if text_eq trimmed []
    then refused empty_name
    else if all is_name_byte trimmed
    then valid
    else refused (invalid_name name)

-- The loop of `BuildArtifactManifest`. `seen` holds what `normalized` holds, so one list serves.
unfoldable pub normalize_selected : List Text → List Text → List Text
unfolding normalize_rel_path trim_space contains
normalize_selected [] normalized = normalized
normalize_selected (value ∷ selected) normalized =
    let path = normalize_rel_path (trim_space value) in
    normalize_selected selected
      (if contains normalized path then normalized else normalized ++ path ∷ [])

unfoldable pub build_artifact_manifest :
    ℕ → Text → Text → Text → List Text → DecisionSummary → ArtifactManifest
unfolding normalize_selected sort_texts trim_space
build_artifact_manifest now overlay_name source_root node_source selected_paths summary = record {
  schema_version = artifact_schema_version;
  overlay_name = trim_space overlay_name;
  created_at = now;
  source_root = source_root;
  node_source = trim_space node_source;
  selected_paths = sort_texts (normalize_selected selected_paths []);
  summary = summary;
}

-- The test by which `ValidateArtifact` refuses a path that is not normalised.
unfoldable pub is_normalized : Text → Bool
unfolding normalize_rel_path trim_space text_eq
is_normalized path = text_eq (normalize_rel_path (trim_space path)) path
