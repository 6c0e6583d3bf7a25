-- ===== src/Resources.antt =====
-- internal/resources/resources.go: what a node finds out about its machine and its Ollama. The
-- operating system, nvidia-smi, HTTP and JSON are arguments.
pub mod Numbers
pub mod Digits
pub mod Smi
mod Tests
use potluck.Prelude.{
  ℕ, zero, suc, ◌+◌, ◌-◌, ◌*◌, ◌%◌, ◌^◌, ◌<◌, Bool, true, false, not, ◌&&◌, ◌||◌, List, [], ◌∷◌,
  ◌++◌, map, length, Text, bytes, text_eq, split_on, leb, ltb, ◌==◌, if◌then◌else◌, Option, none,
  some,
}
use potluck.Prelude.Int.{ℤ}
use potluck.Registry.{Gpu, Resources, Model}

-- `unicode.IsSpace` on ASCII.
abbrev pub is_space : ℕ → Bool
is_space b = leb 9 b && leb b 13 || b == 32

unfoldable pub trim_left : Text → Text
trim_left [] = []
trim_left (b ∷ s) = if is_space b then trim_left s else b ∷ s

unfoldable pub trim_right : Text → Text
trim_right [] = []
trim_right (b ∷ s) =
    let rest = trim_right s in if is_space b && length rest == 0 then [] else b ∷ rest

-- `strings.TrimSpace`
unfoldable pub trim_space : Text → Text
unfolding trim_left trim_right
trim_space s = trim_right (trim_left s)

abbrev pub max_u64 : ℕ
max_u64 = 2 ^ 64 - 1

-- The loop of `strconv.ParseUint` in base 10, from the value of the digits read. Where it fails it
-- answers 0, or the largest value if the number is too large, and the callers drop the error.
unfoldable pub parse_digits : ℕ → Text → ℕ
parse_digits n [] = n
parse_digits n (c ∷ s) =
    let m = n * 10 + (c - b'0') in
    if not (leb b'0' c && leb c b'9')
    then 0
    else if ltb max_u64 m
    then max_u64
    else parse_digits m s

unfoldable pub parse_uint : Text → ℕ
unfolding parse_digits
parse_uint s = parse_digits 0 s

abbrev pub mul_u64 : ℕ → ℕ → ℕ
mul_u64 a b = a * b % 2 ^ 64

-- The three parts of a line.
unfoldable pub read_gpu : List Text → Option Gpu
unfolding trim_space parse_uint
read_gpu (name ∷ total ∷ free ∷ []) = some (record {
  name = trim_space name;
  kind = bytes "cuda";
  mem_total = mul_u64 (mul_u64 (parse_uint (trim_space total)) 1024) 1024;
  mem_free = mul_u64 (mul_u64 (parse_uint (trim_space free)) 1024) 1024;
})
read_gpu [] = none
read_gpu (a ∷ []) = none
read_gpu (a ∷ b ∷ []) = none
read_gpu (a ∷ b ∷ c ∷ d ∷ rest) = none

-- The loop over the lines: any other number of parts is skipped.
unfoldable pub read_gpus : List Text → List Gpu
unfolding read_gpu split_on
read_gpus [] = []
read_gpus (line ∷ lines) = elim (read_gpu (split_on b',' line)) [
  | none ↦ read_gpus lines
  | some gpu ↦ gpu ∷ read_gpus lines
]

-- The output of nvidia-smi, if it could be run.
unfoldable pub nvidia_gpus : Option Text → List Gpu × Bool
unfolding read_gpus split_on trim_space
nvidia_gpus none = ([], false)
nvidia_gpus (some out) =
    let gpus = read_gpus (split_on b'\n' (trim_space out)) in (gpus, not (length gpus == 0))

-- Apple Silicon is reported as one Metal device.
pub metal : Resources → List Gpu
unfolding text_eq
metal res =
    if text_eq res.os (bytes "darwin") && text_eq res.arch (bytes "arm64")
    then record {
      name =
          (if text_eq res.cpu_model (bytes "") then bytes "Apple Silicon" else res.cpu_model)
          ++ bytes " (unified memory)";
      kind = bytes "metal";
      mem_total = res.mem_total;
      mem_free = res.mem_available;
    }
      ∷ []
    else []

unfoldable pub detect_gpus : Option Text → Resources → List Gpu
unfolding nvidia_gpus metal
detect_gpus smi res =
    let (gpus, found) = nvidia_gpus smi in (if found then gpus else []) ++ metal res

-- What the operating system answers; `none` where a call fails.
pub record Machine : Type 0 where
  pub os : Text
  pub arch : Text
  pub num_cpu : ℤ
  pub hostname : Option Text
  pub memory : Option (ℕ × ℕ)
  pub cpu_models : Option (List Text)
  pub smi : Option Text

abbrev or_empty : Option Text → Text
or_empty none = []
or_empty (some s) = s

pub first_model : Option (List Text) → Text
unfolding trim_space
first_model none = []
first_model (some []) = []
first_model (some (name ∷ _)) = trim_space name

abbrev memory_of : Option (ℕ × ℕ) → ℕ × ℕ
memory_of none = (0, 0)
memory_of (some m) = m

unfoldable pub collect : Machine → Resources
unfolding first_model detect_gpus
collect m =
    let res : Resources = record {
      hostname = or_empty m.hostname;
      os = m.os;
      arch = m.arch;
      cpu_model = first_model m.cpu_models;
      num_cpu = m.num_cpu;
      mem_total = (memory_of m.memory).0;
      mem_available = (memory_of m.memory).1;
      gpus = [];
    } in
    record res { gpus = detect_gpus m.smi res }

pub record OllamaState : Type 0 where
  pub ok : Bool
  pub version : Text
  pub models : List Model
  pub loaded : List Text

-- A model as /api/tags lists it.
pub record TagsModel : Type 0 where
  pub name : Text
  pub size : ℕ
  pub family : Text
  pub parameter_size : Text
  pub quantization_level : Text

-- A GET request: the status and the body, or `none` if it failed or could not be made.
abbrev pub Fetch : Type 0
Fetch = Text → Option (ℕ × Text)

unfoldable pub get_json {ℓ} : {A : Type ℓ} → Fetch → (Text → Option A) → Text → Option A
get_json fetch decode url = elim (fetch url) [
  | none ↦ none
  | some (status, body) ↦ if status == 200 then decode body else none
]

-- JSON's decoders.
pub record Decoders : Type 0 where
  pub version : Text → Option Text
  pub tags : Text → Option (List TagsModel)
  pub running : Text → Option (List Text)

pub model_of_tags : TagsModel → Model
model_of_tags m = record {
  name = m.name;
  size = m.size;
  family = m.family;
  parameters = m.parameter_size;
  quant = m.quantization_level;
}

pub models_of : Option (List TagsModel) → List Model
unfolding model_of_tags
models_of none = []
models_of (some ms) = map model_of_tags ms

pub loaded_of : Option (List Text) → List Text
loaded_of none = []
loaded_of (some names) = names

unfoldable pub probe_ollama : Fetch → Decoders → Text → OllamaState
unfolding get_json models_of loaded_of
probe_ollama fetch decode base_url =
    elim (get_json fetch decode.version (base_url ++ bytes "/api/version")) [
      | none ↦ record { ok = false; version = []; models = []; loaded = [] }
      | some version ↦ record {
        ok = true;
        version = version;
        models = models_of (get_json fetch decode.tags (base_url ++ bytes "/api/tags"));
        loaded = loaded_of (get_json fetch decode.running (base_url ++ bytes "/api/ps"));
      }
    ]
