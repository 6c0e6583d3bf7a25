-- ===== src/Split/Worker/Devices.antt =====
-- worker.go, `pickDevices`: which devices the rpc-server exposes.
pub mod Chosen
use potluck.Prelude.{
  ℕ, Bool, true, false, not, ◌&&◌, List, [], ◌∷◌, ◌++◌, Text, bytes, join, has_prefix, split_on,
  length, ◌==◌, if◌then◌else◌, Option, none, some,
}
use potluck.Prelude.Int.{ℤ, pos, ltb_ℤ}

pub is_cpu : Text → Bool
unfolding has_prefix
is_cpu name = has_prefix name (bytes "CPU")

-- The accelerators and the CPUs found so far, with what the regular expression and `Atoi` make of
-- one more line.
pub add_device : Option (Text × ℤ) → List Text × List Text → List Text × List Text
unfolding is_cpu
add_device none (gpus, cpus) = (gpus, cpus)
add_device (some (name, mem)) (gpus, cpus) =
    if not (ltb_ℤ (pos 0) mem)
    then (gpus, cpus)
    else if is_cpu name
    then (gpus, cpus ++ name ∷ [])
    else (gpus ++ name ∷ [], cpus)

pub sort_devices :
    (Text → Option (Text × ℤ)) → List Text → List Text × List Text → List Text × List Text
unfolding add_device
sort_devices read [] found = found
sort_devices read (line ∷ lines) found = sort_devices read lines (add_device (read line) found)

pub chosen : List Text × List Text → Text
unfolding join
chosen ([], cpus) = join cpus
chosen (gpu ∷ gpus, cpus) = join (gpu ∷ gpus)

-- `failed` tells that the listing ended with an error, and `out` is its output.
unfoldable pub pick_devices : (Text → Option (Text × ℤ)) → Bool → Text → Text
unfolding sort_devices chosen split_on
pick_devices read failed out =
    if failed && length out == 0 then [] else chosen (sort_devices read (split_on 10 out) ([], []))
