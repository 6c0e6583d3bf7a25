-- ===== src/Ollamafs/Blobs.antt =====
-- ollamafs.go, `ModelBlobPath`: the path is that of the first model layer, and it exists.
use potluck.Prelude.{
  ◌≡◌, refl, ap, Bool, true, false, inl, inr, List, [], ◌∷◌, ◌++◌, All, Text, bytes, text_eq, none,
  some, Bool-cases, Option-cases,
}
use potluck.Prelude.Results.{Result, ok, err}
use potluck.Ollamafs.{
  Layer, Store, BlobError, not_found, bad_manifest, no_model_layer, missing_blob, model_media_type,
  blob_name, find_blob, manifest_path, model_blob_path,
}

abbrev pub is_model : Layer → Bool
is_model l = text_eq l.media_type model_media_type

abbrev pub blob_path : Store → Text → Layer → Text
blob_path store models_dir l = store.join (models_dir ∷ bytes "blobs" ∷ blob_name l.digest ∷ [])

-- The first layer with the media type of a model.
pub record IsFirstModel (layers : List Layer) (l : Layer) : Type 0 where
  pub ahead : List Layer
  pub behind : List Layer
  pub split : layers ≡ ahead ++ l ∷ behind
  pub skipped : All (λ k. is_model k ≡ false) ahead
  pub chosen : is_model l ≡ true

-- What the loop over the layers answers, and why.
pub data IsFound (store : Store) (models_dir : Text) (layers : List Layer)
    : Result BlobError Text → Type 0 where
  present :
      (l : Layer) (path : Text)
      → IsFirstModel layers l
      → path ≡ blob_path store models_dir l
      → store.exists path ≡ true
      → IsFound store models_dir layers (ok path)
  absent :
      (l : Layer) (name : Text)
      → IsFirstModel layers l
      → name ≡ blob_name l.digest
      → store.exists (blob_path store models_dir l) ≡ false
      → IsFound store models_dir layers (err (missing_blob name))
  unlisted :
      All (λ k. is_model k ≡ false) layers → IsFound store models_dir layers (err no_model_layer)

IsFirstModel-cons :
    (k l : Layer) (layers : List Layer)
    → is_model k ≡ false
    → IsFirstModel layers l
    → IsFirstModel (k ∷ layers) l
IsFirstModel-cons k l layers other f = record {
  ahead = k ∷ f.ahead;
  behind = f.behind;
  split = ap (◌∷◌ k) f.split;
  skipped = (other, f.skipped);
  chosen = f.chosen;
}

IsFound-cons :
    (store : Store) (models_dir : Text) (k : Layer) (layers : List Layer)
    {r : Result BlobError Text}
    → is_model k ≡ false
    → IsFound store models_dir layers r
    → IsFound store models_dir (k ∷ layers) r
IsFound-cons store models_dir k layers other (present l path f e x) =
    present l path (IsFirstModel-cons k l layers other f) e x
IsFound-cons store models_dir k layers other (absent l name f e x) =
    absent l name (IsFirstModel-cons k l layers other f) e x
IsFound-cons store models_dir k layers other (unlisted a) = unlisted (other, a)

find_blob-IsFound :
    (store : Store) (models_dir : Text) (layers : List Layer)
    → IsFound store models_dir layers (find_blob store models_dir layers)
unfolding find_blob
find_blob-IsFound store models_dir [] = unlisted tt
find_blob-IsFound store models_dir (l ∷ ls) = elim (Bool-cases (is_model l)) [
  | inr other ↦
      rw other (IsFound-cons store models_dir l ls other (find_blob-IsFound store models_dir ls))
  | inl chosen ↦ rw chosen (elim (Bool-cases (store.exists (blob_path store models_dir l))) [
    | inl there ↦ rw there (
        present l _
          (record { ahead = []; behind = ls; split = refl; skipped = tt; chosen = chosen }) refl
          there)
    | inr gone ↦ rw gone (
        absent l _ (record { ahead = []; behind = ls; split = refl; skipped = tt; chosen = chosen })
          refl gone)
  ])
]

-- What `ModelBlobPath` answers for a model, and why.
pub data IsResolved (store : Store) (models_dir model : Text) : Result BlobError Text → Type 0 where
  unread :
      store.read_file (manifest_path store models_dir model) ≡ none
      → IsResolved store models_dir model (err not_found)
  undecoded :
      (b : Text)
      → store.read_file (manifest_path store models_dir model) ≡ some b
      → store.decode b ≡ none
      → IsResolved store models_dir model (err bad_manifest)
  decoded :
      {r : Result BlobError Text} (b : Text) (layers : List Layer)
      → store.read_file (manifest_path store models_dir model) ≡ some b
      → store.decode b ≡ some layers
      → IsFound store models_dir layers r
      → IsResolved store models_dir model r

-- `ModelBlobPath` reads the manifest under the model's name. It returns the blob path of the first
-- layer with the media type of a model if that file exists, and an error if the manifest cannot be
-- read or decoded, lists no such layer, or names a blob that is missing.
pub model_blob_path-IsResolved :
    (store : Store) (models_dir model : Text)
    → IsResolved store models_dir model (model_blob_path store models_dir model)
unfolding model_blob_path
model_blob_path-IsResolved store models_dir model =
    elim (Option-cases (store.read_file (manifest_path store models_dir model))) [
      | inl missing ↦ rw (missing, model_blob_path) (unread missing)
      | inr (b, read) ↦ elim (Option-cases (store.decode b)) [
        | inl bad ↦ rw (read, model_blob_path) (rw bad (undecoded b read bad))
        | inr (layers, good) ↦
            rw (read, model_blob_path)
              (rw good (decoded b layers read good (find_blob-IsFound store models_dir layers)))
      ]
    ]
