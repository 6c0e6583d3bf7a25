-- ===== src/Ollamafs.antt =====
-- internal/ollamafs/ollamafs.go: where the Ollama store keeps the weights of a model. The file
-- system, `filepath.Join` and the JSON decoder are parameters.
pub mod Names
pub mod Blobs
mod Tests
use potluck.Prelude.{
  split_on, ℕ, Bool, true, false, List, [], ◌∷◌, ◌++◌, Text, bytes, text_eq, strip_prefix?, ◌==◌,
  if◌then◌else◌, Option, none, some,
}
use potluck.Prelude.Results.{Result, ok, err}

-- `strings.LastIndex` and the two slices around it: what stands before and after the last `c`.
unfoldable pub cut_last : ℕ → Text → Option (Text × Text)
cut_last c [] = none
cut_last c (b ∷ s) = elim (cut_last c s) [
  | some (before, after) ↦ some (b ∷ before, after)
  | none ↦ if b == c then some ([], s) else none
]

pub record StoreName : Type 0 where
  pub host : Text
  pub namespace : Text
  pub name : Text
  pub tag : Text

abbrev pub default_host : Text
default_host = bytes "registry.ollama.ai"

abbrev pub default_namespace : Text
default_namespace = bytes "library"

abbrev pub default_tag : Text
default_tag = bytes "latest"

-- The `switch` on the number of parts.
pub place_parts : Text → Text → List Text → StoreName
place_parts name tag (host ∷ namespace ∷ last ∷ []) = record {
  host = host;
  namespace = namespace;
  name = last;
  tag = tag;
}
place_parts name tag (namespace ∷ last ∷ []) = record {
  host = default_host;
  namespace = namespace;
  name = last;
  tag = tag;
}
place_parts name tag parts = record {
  host = default_host;
  namespace = default_namespace;
  name = name;
  tag = tag;
}

unfoldable pub split_name : Text → StoreName
unfolding cut_last split_on place_parts
split_name model = elim (cut_last b':' model) [
  | none ↦ place_parts model default_tag (split_on b'/' model)
  | some (name, tag) ↦ place_parts name tag (split_on b'/' name)
]

pub record Layer : Type 0 where
  pub media_type : Text
  pub digest : Text

pub data BlobError : Type 0 where
  not_found bad_manifest no_model_layer : BlobError
  missing_blob : Text → BlobError

abbrev pub model_media_type : Text
model_media_type = bytes "application/vnd.ollama.image.model"

-- `strings.Replace(digest, "sha256:", "sha256-", 1)`
replace_first : Text → Text → Text → Text
unfolding strip_prefix?
replace_first old new [] = []
replace_first old new (b ∷ s) = elim (strip_prefix? (b ∷ s) old) [
  | some rest ↦ new ++ rest
  | none ↦ b ∷ replace_first old new s
]

unfoldable pub blob_name : Text → Text
unfolding replace_first
blob_name digest = replace_first (bytes "sha256:") (bytes "sha256-") digest

-- What the file system and the libraries answer.
pub record Store : Type 0 where
  pub read_file : Text → Option Text
  pub exists : Text → Bool
  pub join : List Text → Text
  pub decode : Text → Option (List Layer)

-- The loop over the layers: the first model layer decides.
pub find_blob : Store → Text → List Layer → Result BlobError Text
unfolding text_eq blob_name
find_blob store models_dir [] = err no_model_layer
find_blob store models_dir (l ∷ ls) =
    let rest = find_blob store models_dir ls in
    let path = store.join (models_dir ∷ bytes "blobs" ∷ blob_name l.digest ∷ []) in
    if text_eq l.media_type model_media_type
    then (if store.exists path then ok path else err (missing_blob (blob_name l.digest)))
    else rest

pub manifest_path : Store → Text → Text → Text
unfolding split_name
manifest_path store models_dir model =
    let s = split_name model in
    store.join (models_dir ∷ bytes "manifests" ∷ s.host ∷ s.namespace ∷ s.name ∷ s.tag ∷ [])

unfoldable pub model_blob_path : Store → Text → Text → Result BlobError Text
unfolding find_blob manifest_path
model_blob_path store models_dir model =
    elim (store.read_file (manifest_path store models_dir model)) [
      | none ↦ err not_found
      | some b ↦ elim (store.decode b) [
        | none ↦ err bad_manifest
        | some layers ↦ find_blob store models_dir layers
      ]
    ]
