-- ===== src/Split/Logs/Inside.antt =====
-- split.go: log files stay in their directory, whatever a pipeline's model is called.
use potluck.Prelude.{
  ℕ, ◌≤◌, length, inl, inr, ◌⊎◌, ◌≡◌, ◌≢◌, refl, ap, ◌∙◌, false, [], ◌∷◌, ◌++◌, map, All-append,
  Lacks, lacks, Text, bytes, ◌==◌, Option, none, some, if_cases, arith,
}
use potluck.Ollamafs.{cut_last}
use potluck.Ollamafs.Names.{cut_last-append}
use potluck.Split.Logs.{Places, log_dir, safe_byte, log_name, log_path, open_log, start_logged}

map-Lacks :
    (c : ℕ) → ((b : ℕ) → (safe_byte b == c) ≡ false) → (name : Text) → Lacks c (map safe_byte name)
map-Lacks c safe [] = tt
map-Lacks c safe (b ∷ name) = (safe b, map-Lacks c safe name)

no_slash : (b : ℕ) → (safe_byte b == b'/') ≡ false
no_slash b = ground arith

log_name-Lacks : (name : Text) → Lacks b'/' (log_name name)
unfolding log_name
log_name-Lacks name =
    All-append _ (map safe_byte name) (bytes ".log") (map-Lacks b'/' no_slash name)
      (lacks b'/' (bytes ".log") refl)

length-append_log : (s : Text) → 4 ≤ length (s ++ bytes ".log")
length-append_log [] = omega arith
length-append_log (b ∷ s) = omega (arith, length-append_log s)

-- A name of four bytes or more is no shorter name.
long : (s t : Text) → 4 ≤ length s → (length t ≡ 0) ⊎ (length t ≡ 1) ⊎ (length t ≡ 2) → s ≢ t
long s t h short e = omega (arith, h, short, ap length e)

-- `filepath.Join` of a clean directory and one plain name.
abbrev pub JoinsPlain : Places → Type 0
JoinsPlain p =
    (name : Text)
    → Lacks b'/' name
    → name ≢ []
    → name ≢ bytes "."
    → name ≢ bytes ".."
    → p.join (log_dir p ∷ name ∷ []) ≡ log_dir p ++ b'/' ∷ name

-- The file whose path is cut at its last slash, of a name that stays in the directory.
unfoldable pub IsInside : Text → Option Text → Type 0
IsInside dir none = Unit
IsInside dir (some path) =
    (file : Text) × (cut_last b'/' path ≡ some (dir, file))
    × (file ≢ bytes ".")
    × (file ≢ bytes "..")

log_name-IsLong : (name : Text) → 4 ≤ length (log_name name)
unfolding log_name
log_name-IsLong name = length-append_log (map safe_byte name)

log_name-IsPlain :
    (name : Text)
    → (log_name name ≢ []) × (log_name name ≢ bytes ".") × (log_name name ≢ bytes "..")
log_name-IsPlain name = (
  long (log_name name) [] (log_name-IsLong name) (inl refl),
  long (log_name name) (bytes ".") (log_name-IsLong name) (inr (inl refl)),
  long (log_name name) (bytes "..") (log_name-IsLong name) (inr (inr refl)),
)

log_path-IsInside :
    (p : Places) (name : Text) → JoinsPlain p → IsInside (log_dir p) (some (log_path p name))
unfolding IsInside
log_path-IsInside p name joins =
    let plain = log_name-IsPlain name in
    (
      log_name name,
      ap (cut_last b'/') (joins (log_name name) (log_name-Lacks name) plain.0 plain.1 plain.2)
          ∙ cut_last-append b'/' (log_dir p) (log_name name) (log_name-Lacks name),
      plain.1,
      plain.2,
    )

-- A file that takes the output of a process stands in the directory of the logs itself, whatever
-- the name it is asked for, under a name that is neither "." nor "..", if `filepath.Join` joins a
-- plain name to that directory with one slash.
pub start_logged-IsInside {ℓ} :
    {E : Type ℓ} (p : Places) (name : Text) (failure : Option E)
    → JoinsPlain p
    → IsInside (log_dir p) (start_logged p name failure).0
unfolding start_logged open_log IsInside
start_logged-IsInside p name failure joins =
    if_cases (IsInside (log_dir p)) (p.opens (log_path p name)) _ _
      (λ _. log_path-IsInside p name joins) (λ _. tt)
