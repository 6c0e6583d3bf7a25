-- ===== src/Split/Worker/Devices/Chosen.antt =====
-- worker.go: what `pickDevices` chooses.

use potluck.Prelude.{
  append_assoc, append_nil, ◌≡◌, refl, sym, ap, ◌∙◌, inl, inr, Bool, not, ◌&&◌, List, [], ◌∷◌, ◌++◌,
  filter, Text, join, split_on, length, ◌==◌, Bool-cases, if◌then◌else◌, Option, none, some,
}
use potluck.Prelude.Int.{ℤ, pos, ltb_ℤ}
use potluck.Split.Worker.Devices.{is_cpu, add_device, sort_devices, chosen, pick_devices}

-- The name on this line, if it is a device with memory.
abbrev named : Option (Text × ℤ) → List Text
named none = []
named (some (name, mem)) = if ltb_ℤ (pos 0) mem then name ∷ [] else []

-- The names of the devices with memory, in the order listed.
abbrev pub with_memory : (Text → Option (Text × ℤ)) → List Text → List Text
with_memory read [] = []
with_memory read (line ∷ lines) = named (read line) ++ with_memory read lines

abbrev pub accelerators : List Text → List Text
accelerators = filter (λ name. not (is_cpu name))

abbrev pub processors : List Text → List Text
processors = filter is_cpu

filter-append :
    (p : Text → Bool) (xs ys : List Text) → filter p (xs ++ ys) ≡ filter p xs ++ filter p ys
filter-append p [] ys = refl
filter-append p (x ∷ xs) ys = elim (Bool-cases (p x)) [
  | inl kept ↦ rw kept (ap (◌∷◌ x) (filter-append p xs ys))
  | inr dropped ↦ rw dropped (filter-append p xs ys)
]

-- The names, sorted onto what was found before.
abbrev onto : List Text → List Text × List Text → List Text × List Text
onto names (gpus, cpus) = (gpus ++ accelerators names, cpus ++ processors names)

pair_eq :
    {gpus gpus' cpus cpus' : List Text}
    → gpus ≡ gpus'
    → cpus ≡ cpus'
    → ◌≡◌ {A = List Text × List Text} (gpus, cpus) (gpus', cpus')
pair_eq {gpus' = gpus'} {cpus = cpus} p q = ap (λ x. (x, cpus)) p ∙ ap (λ y. (gpus', y)) q

add_device-onto :
    (o : Option (Text × ℤ)) (gpus cpus : List Text)
    → add_device o (gpus, cpus) ≡ onto (named o) (gpus, cpus)
unfolding add_device
add_device-onto none gpus cpus = pair_eq (sym (append_nil gpus)) (sym (append_nil cpus))
add_device-onto (some (name, mem)) gpus cpus = elim (Bool-cases (ltb_ℤ (pos 0) mem)) [
  | inl has ↦ rw has (elim (Bool-cases (is_cpu name)) [
    | inl cpu ↦ rw cpu (pair_eq (sym (append_nil gpus)) refl)
    | inr gpu ↦ rw gpu (pair_eq refl (sym (append_nil cpus)))
  ])
  | inr lacks ↦ rw lacks (pair_eq (sym (append_nil gpus)) (sym (append_nil cpus)))
]

onto-append :
    (xs ys gpus cpus : List Text) → onto ys (onto xs (gpus, cpus)) ≡ onto (xs ++ ys) (gpus, cpus)
onto-append xs ys gpus cpus =
    pair_eq
      (append_assoc gpus (accelerators xs) (accelerators ys)
        ∙ ap (◌++◌ gpus) (sym (filter-append (λ name. not (is_cpu name)) xs ys)))
      (append_assoc cpus (processors xs) (processors ys)
        ∙ ap (◌++◌ cpus) (sym (filter-append is_cpu xs ys)))

sort_devices-onto :
    (read : Text → Option (Text × ℤ)) (lines gpus cpus : List Text)
    → sort_devices read lines (gpus, cpus) ≡ onto (with_memory read lines) (gpus, cpus)
unfolding sort_devices
sort_devices-onto read [] gpus cpus = pair_eq (sym (append_nil gpus)) (sym (append_nil cpus))
sort_devices-onto read (line ∷ lines) gpus cpus =
    let here = named (read line) in
    ap (sort_devices read lines) (add_device-onto (read line) gpus cpus)
    ∙ (sort_devices-onto read lines (gpus ++ accelerators here) (cpus ++ processors here)
        ∙ onto-append here (with_memory read lines) gpus cpus)

abbrev pub or_else : List Text → List Text → List Text
or_else [] cpus = cpus
or_else (gpu ∷ gpus) cpus = gpu ∷ gpus

-- The accelerators if there is one, the CPUs if not; nothing if the listing failed in silence.
abbrev pub preferred : (Text → Option (Text × ℤ)) → Bool → Text → Text
preferred read failed out =
    let names = with_memory read (split_on 10 out) in
    if failed && length out == 0 then [] else join (or_else (accelerators names) (processors names))

chosen_lem : (gpus cpus : List Text) → chosen (gpus, cpus) ≡ join (or_else gpus cpus)
unfolding chosen
chosen_lem [] cpus = refl
chosen_lem (gpu ∷ gpus) cpus = refl

-- `pickDevices` answers the accelerators with memory, in the order listed and with commas between;
-- the CPUs with memory if there is no such accelerator; and nothing if the listing failed without
-- output.
pub pick_devices_lem :
    (read : Text → Option (Text × ℤ)) (failed : Bool) (out : Text)
    → pick_devices read failed out ≡ preferred read failed out
unfolding pick_devices
pick_devices_lem read failed out =
    let names = with_memory read (split_on 10 out) in
    ap (λ (t : Text). if failed && length out == 0 then [] else t)
      (ap chosen (sort_devices-onto read (split_on 10 out) [] [])
        ∙ chosen_lem (accelerators names) (processors names))
