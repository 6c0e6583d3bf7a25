-- ===== src/Resources/Tests.antt =====
-- A machine with two devices, and the theorem of resources.go at a concrete input.
use potluck.Prelude.{
  ◌≡◌, refl, true, [], ◌∷◌, ◌++◌, map, bytes, lacks, text_eq, if◌then◌else◌, some, arith,
}
use potluck.Resources.{trim_space, nvidia_gpus, probe_ollama}
use potluck.Resources.Smi.{Device, smi_output, IsPrintable, gpu_of, nvidia_gpus_lem}

abbrev big_card : Device
big_card = record { name = bytes "NVIDIA RTX 4090"; total = 24564; free = 22000 }

abbrev small_card : Device
small_card = record { name = bytes "Tesla T4"; total = 15360; free = 15000 }

program : Unit {0}
unfolding nvidia_gpus trim_space probe_ollama text_eq
program = tt

-- The text itself.
printed :
    nvidia_gpus (
      some (
        bytes "NVIDIA RTX 4090, 24564, 22000"
        ++ b'\n' ∷ bytes "Tesla T4, 15360, 15000"
        ++ b'\n' ∷ []))
    ≡ (gpu_of big_card ∷ gpu_of small_card ∷ [], true)
unfolding program
printed = refl

big_card-IsPrintable : IsPrintable big_card
unfolding program
big_card-IsPrintable = record {
  has_name = λ e. cc;
  no_comma = lacks b',' (bytes "NVIDIA RTX 4090") refl;
  no_end = lacks b'\n' (bytes "NVIDIA RTX 4090") refl;
  trimmed = refl;
  total_fits = omega arith;
  free_fits = omega arith;
}

small_card-IsPrintable : IsPrintable small_card
unfolding program
small_card-IsPrintable = record {
  has_name = λ e. cc;
  no_comma = lacks b',' (bytes "Tesla T4") refl;
  no_end = lacks b'\n' (bytes "Tesla T4") refl;
  trimmed = refl;
  total_fits = omega arith;
  free_fits = omega arith;
}

nvidia_gpus_lem_example :
    nvidia_gpus (some (smi_output (big_card ∷ small_card ∷ [])))
    ≡ (map gpu_of (big_card ∷ small_card ∷ []), true)
nvidia_gpus_lem_example =
    nvidia_gpus_lem big_card (small_card ∷ []) (big_card-IsPrintable, (small_card-IsPrintable, tt))

-- An Ollama that answers its version, and the list of models with an error.
no_models :
    probe_ollama
      (λ url. if text_eq url (bytes "http://o/api/version") then some (200, []) else some (500, []))
      (record { version = λ b. some (bytes "0.5"); tags = λ b. some []; running = λ b. some [] })
      (bytes "http://o")
    ≡ record { ok = true; version = bytes "0.5"; models = []; loaded = [] }
unfolding program
no_models = refl
