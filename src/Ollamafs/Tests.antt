-- ===== src/Ollamafs/Tests.antt =====
-- References and manifests, and the theorems at concrete inputs.
use potluck.Prelude.{
  lacks, ◌≡◌, refl, [], ◌∷◌, ◌++◌, List, Text, bytes, text_eq, none, some, if◌then◌else◌,
}
use potluck.Prelude.Results.{ok}
use potluck.Ollamafs.{
  split_name, Store, model_media_type, default_host, default_namespace, default_tag,
  model_blob_path,
}
use potluck.Ollamafs.Names.{stored, split_name_port}
use potluck.Ollamafs.Blobs.{IsResolved, model_blob_path-IsResolved}

bare :
    split_name (bytes "llama3.2")
    ≡ stored default_host default_namespace (bytes "llama3.2") default_tag
unfolding split_name
bare = refl

split_name_port_example :
    split_name (bytes "localhost:5000/team/model")
    ≡ stored default_host default_namespace (bytes "localhost") (bytes "5000/team/model")
split_name_port_example =
    split_name_port (bytes "localhost") (bytes "5000") (bytes "team/model")
      (lacks b'/' (bytes "localhost") refl) (lacks b':' (bytes "5000") refl)
      (lacks b':' (bytes "team/model") refl)

abbrev slashes : List Text → Text
slashes [] = []
slashes (w ∷ []) = w
slashes (w ∷ v ∷ ws) = w ++ b'/' ∷ slashes (v ∷ ws)

-- One model, whose second layer is its GGUF blob.
abbrev store : Store
store = record {
  read_file = λ path.
      if text_eq path (bytes "/m/manifests/registry.ollama.ai/library/qwen3/0.6b")
      then some (bytes "{}")
      else none;
  exists = λ path. text_eq path (bytes "/m/blobs/sha256-2");
  join = slashes;
  decode = λ b. some (
      record {
        media_type = bytes "application/vnd.ollama.image.license";
        digest = bytes "sha256:1";
      }
      ∷ record { media_type = model_media_type; digest = bytes "sha256:2" }
      ∷ []);
}

resolves : model_blob_path store (bytes "/m") (bytes "qwen3:0.6b") ≡ ok (bytes "/m/blobs/sha256-2")
unfolding model_blob_path text_eq
resolves = refl

model_blob_path-IsResolved_example :
    IsResolved store
      (bytes "/m")
      (bytes "qwen3:0.6b")
      (model_blob_path store (bytes "/m") (bytes "qwen3:0.6b"))
model_blob_path-IsResolved_example =
    model_blob_path-IsResolved store (bytes "/m") (bytes "qwen3:0.6b")
