-- ===== src/Resources/Smi.antt =====
-- resources.go, `nvidiaGPUs`: what nvidia-smi prints of its devices is read back.
use potluck.Prelude.{
  ℕ, ◌*◌, ◌^◌, ◌<◌, ◌≡◌, ◌≢◌, refl, sym, ap, ◌∙◌, Bool, true, false, not, List, [], ◌∷◌, ◌++◌, map,
  length, All, All-append, Text, bytes, split_on, split_on-append, split_on-whole, Lacks, ◌==◌,
  some, arith,
}
use mathlib.Core.List.{append_assoc, append-nil}
use potluck.Prelude.Decimal.{decimal}
use potluck.Registry.{Gpu}
use potluck.Resources.{
  trim_left, trim_right, trim_space, parse_uint, mul_u64, read_gpu, read_gpus, nvidia_gpus,
}
use potluck.Resources.Numbers.{
  trim_space-solid, length-append_right, trim_left-append, trim_right-append, trim_right-solid,
}
use potluck.Resources.Digits.{parse_uint-decimal, decimal-IsSolid, decimal-Lacks, decimal-some}

-- A device as nvidia-smi reports it, with its memory in MiB.
pub record Device : Type 0 where
  pub name : Text
  pub total : ℕ
  pub free : ℕ

-- The fields of its line, and the line: `--format=csv,noheader,nounits` separates by a comma and a
-- space.
abbrev memory_fields : Device → Text
memory_fields d = b' ' ∷ decimal d.total ++ b',' ∷ b' ' ∷ decimal d.free

abbrev pub smi_line : Device → Text
smi_line d = d.name ++ b',' ∷ memory_fields d

-- One line for each device, each with its end.
abbrev pub smi_output : List Device → Text
smi_output [] = []
smi_output (d ∷ ds) = smi_line d ++ b'\n' ∷ smi_output ds

-- The name is not empty, holds no comma and no line end, and no space at its ends; the memory is less
-- than 16 EiB.
pub record IsPrintable (d : Device) : Type 0 where
  pub has_name : d.name ≢ []
  pub no_comma : Lacks b',' d.name
  pub no_end : Lacks b'\n' d.name
  pub trimmed : trim_space d.name ≡ d.name
  pub total_fits : d.total < 2 ^ 44
  pub free_fits : d.free < 2 ^ 44

abbrev pub gpu_of : Device → Gpu
gpu_of d = record {
  name = d.name;
  kind = bytes "cuda";
  mem_total = d.total * 2 ^ 20;
  mem_free = d.free * 2 ^ 20;
}

trim-decimal : (n : ℕ) → trim_space (b' ' ∷ decimal n) ≡ decimal n
unfolding trim_space trim_left
trim-decimal n = trim_space-solid (decimal n) (decimal-IsSolid n)

bytes_of_mib :
    (n : ℕ)
    → n < 2 ^ 44
    → mul_u64 (mul_u64 (parse_uint (trim_space (b' ' ∷ decimal n))) 1024) 1024 ≡ n * 2 ^ 20
bytes_of_mib n fits = rw (trim-decimal n, parse_uint-decimal n (omega arith)) (omega arith)

line-parts :
    (d : Device)
    → IsPrintable d
    → split_on b',' (smi_line d) ≡ d.name ∷ (b' ' ∷ decimal d.total) ∷ (b' ' ∷ decimal d.free) ∷ []
line-parts d p =
    split_on-append b',' d.name (memory_fields d) p.no_comma
    ∙ ap (◌∷◌ d.name) (
        split_on-append b',' (b' ' ∷ decimal d.total) (b' ' ∷ decimal d.free)
          (refl, decimal-Lacks b',' d.total (omega arith))
        ∙ ap (◌∷◌ (b' ' ∷ decimal d.total)) (
            split_on-whole b',' (b' ' ∷ decimal d.free)
              (refl, decimal-Lacks b',' d.free (omega arith))))

read-line : (d : Device) → IsPrintable d → read_gpu (split_on b',' (smi_line d)) ≡ some (gpu_of d)
unfolding read_gpu
read-line d p =
    rw
      (
        line-parts d p,
        p.trimmed,
        bytes_of_mib d.total p.total_fits,
        bytes_of_mib d.free p.free_fits,
      )
      refl

-- A line up to its last field.
abbrev line_start : Device → Text
line_start d = d.name ++ b',' ∷ b' ' ∷ (decimal d.total ++ b',' ∷ b' ' ∷ [])

line-append :
    (d : Device) (rest : Text) → smi_line d ++ rest ≡ line_start d ++ (decimal d.free ++ rest)
line-append d rest =
    append_assoc d.name (b',' ∷ memory_fields d) rest
    ∙ ap (λ t. d.name ++ b',' ∷ b' ' ∷ t)
        (append_assoc (decimal d.total) (b',' ∷ b' ' ∷ decimal d.free) rest
          ∙ sym (append_assoc (decimal d.total) (b',' ∷ b' ' ∷ []) (decimal d.free ++ rest)))
    ∙ sym (
        append_assoc d.name (b',' ∷ b' ' ∷ (decimal d.total ++ b',' ∷ b' ' ∷ []))
          (decimal d.free ++ rest))

-- The output without its last line end.
abbrev joined : Device → List Device → Text
joined d [] = smi_line d
joined d (e ∷ ds) = smi_line d ++ b'\n' ∷ joined e ds

joined-some : (d : Device) (ds : List Device) → (length (joined d ds) == 0) ≡ false
joined-some d [] = length-append_right d.name (b',' ∷ memory_fields d) (ground arith)
joined-some d (e ∷ ds) = length-append_right (smi_line d) (b'\n' ∷ joined e ds) (ground arith)

trim-last : (d : Device) → trim_right (smi_line d ++ b'\n' ∷ []) ≡ smi_line d
unfolding trim_right
trim-last d =
    let field : trim_right (decimal d.free ++ b'\n' ∷ []) ≡ decimal d.free =
      trim_right-solid (decimal d.free) (b'\n' ∷ []) (decimal-IsSolid d.free) refl in
    ap trim_right (line-append d (b'\n' ∷ []))
    ∙ trim_right-append (line_start d) (decimal d.free ++ b'\n' ∷ []) (decimal d.free) field
        (decimal-some d.free)
    ∙ ap (◌++◌ (line_start d)) (sym (append-nil (decimal d.free)))
    ∙ sym (line-append d [])
    ∙ append-nil (smi_line d)

trim-output : (d : Device) (ds : List Device) → trim_right (smi_output (d ∷ ds)) ≡ joined d ds
trim-output d [] = trim-last d
trim-output d (e ∷ ds) =
    trim_right-append (smi_line d) (b'\n' ∷ smi_output (e ∷ ds)) (b'\n' ∷ joined e ds)
      (trim_right-append (b'\n' ∷ []) (smi_output (e ∷ ds)) (joined e ds) (trim-output e ds)
        (joined-some e ds))
      (ground arith)

line-Lacks : (d : Device) → IsPrintable d → Lacks b'\n' (smi_line d)
line-Lacks d p = All-append _ d.name (b',' ∷ memory_fields d) p.no_end (
  refl,
  (
    refl,
    All-append _ (decimal d.total) (b',' ∷ b' ' ∷ decimal d.free)
        (decimal-Lacks b'\n' d.total (omega arith))
        (refl, (refl, decimal-Lacks b'\n' d.free (omega arith))),
  ),
)

split-joined :
    (d : Device) (ds : List Device)
    → All IsPrintable (d ∷ ds)
    → split_on b'\n' (joined d ds) ≡ map smi_line (d ∷ ds)
split-joined d [] p = split_on-whole b'\n' (smi_line d) (line-Lacks d p.0)
split-joined d (e ∷ ds) p =
    split_on-append b'\n' (smi_line d) (joined e ds) (line-Lacks d p.0)
    ∙ ap (◌∷◌ (smi_line d)) (split-joined e ds p.1)

trim-start :
    (d : Device) (ds : List Device)
    → IsPrintable d
    → trim_left (smi_output (d ∷ ds)) ≡ smi_output (d ∷ ds)
trim-start d ds p =
    let rest = b'\n' ∷ smi_output ds in
    let whole : smi_line d ++ rest ≡ d.name ++ (b',' ∷ memory_fields d ++ rest) =
      append_assoc d.name (b',' ∷ memory_fields d) rest in
    ap trim_left whole
    ∙ trim_left-append d.name (b',' ∷ memory_fields d ++ rest) p.has_name p.trimmed
    ∙ sym whole

read_gpus-cons :
    (line : Text) (lines : List Text) (gpu : Gpu)
    → read_gpu (split_on b',' line) ≡ some gpu
    → read_gpus (line ∷ lines) ≡ gpu ∷ read_gpus lines
unfolding read_gpus
read_gpus-cons line lines gpu e = rw (e, read_gpus) refl

read-lines : (ds : List Device) → All IsPrintable ds → read_gpus (map smi_line ds) ≡ map gpu_of ds
unfolding read_gpus
read-lines [] p = refl
read-lines (d ∷ ds) p =
    read_gpus-cons (smi_line d) (map smi_line ds) (gpu_of d) (read-line d p.0)
    ∙ ap (◌∷◌ (gpu_of d)) (read-lines ds p.1)

some_found : (gpu : Gpu) (gpus : List Gpu) → not (length (gpu ∷ gpus) == 0) ≡ true
some_found gpu gpus = ground arith

-- What nvidia-smi prints of one device or more is read back as those devices, their memory in bytes.
-- A name must not be empty, must hold no comma, no line end and no space at its ends.
pub nvidia_gpus_lem :
    (d : Device) (ds : List Device)
    → All IsPrintable (d ∷ ds)
    → nvidia_gpus (some (smi_output (d ∷ ds))) ≡ (map gpu_of (d ∷ ds), true)
unfolding nvidia_gpus trim_space
nvidia_gpus_lem d ds p =
    let lines : split_on b'\n' (trim_space (smi_output (d ∷ ds))) ≡ map smi_line (d ∷ ds) =
      ap (λ t. split_on b'\n' (trim_right t)) (trim-start d ds p.0)
      ∙ ap (split_on b'\n') (trim-output d ds)
      ∙ split-joined d ds p in
    let read : read_gpus (split_on b'\n' (trim_space (smi_output (d ∷ ds)))) ≡ map gpu_of (d ∷ ds) =
      ap read_gpus lines ∙ read-lines (d ∷ ds) p in
    ap (λ (gpus : List Gpu). (gpus, not (length gpus == 0))) read
    ∙ ap (λ (found : Bool). (map gpu_of (d ∷ ds), found)) (some_found (gpu_of d) (map gpu_of ds))
