-- ===== src/Agent/Identity/Stable.antt =====
-- agent.go, `loadOrCreateID`: an ID once answered is answered again.
use potluck.Prelude.{
  ℕ, ◌*◌, ◌/◌, ◌%◌, ◌≡◌, refl, sym, ap, ◌∙◌, Bool, true, false, List, [], ◌∷◌, ◌++◌, length, Text,
  leb, if◌then◌else◌, Option, none, some, arith,
}
use potluck.Resources.{is_space, trim_left, trim_right, trim_space}
use potluck.Resources.Numbers.{IsSolid, trim_space-append}
use potluck.Agent.Identity.{
  hex_digit, hex, Disk, write_id, create_id, checked_id, kept_id, load_or_create_id,
}

hex_digit-not_space : (d : ℕ) → is_space (hex_digit d) ≡ false
hex_digit-not_space d = ground arith

hex-IsSolid : (bs : List ℕ) → IsSolid (hex bs)
unfolding hex
hex-IsSolid [] = tt
hex-IsSolid (b ∷ bs) =
    (hex_digit-not_space (b / 16), (hex_digit-not_space (b % 16), hex-IsSolid bs))

length-hex : (bs : List ℕ) → length (hex bs) ≡ 2 * length bs
unfolding hex
length-hex [] = refl
length-hex (b ∷ bs) = omega (arith, length-hex bs)

-- The eight random bytes are eight.
abbrev pub IsEight : Option (List ℕ) → Type 0
IsEight none = Unit
IsEight (some bs) = length bs ≡ 8

-- A later call that finds the file as this one has left it.
abbrev Again : Text → Option Text × Option Text → Type 0
Again id r = (d : Disk) → d.home ≡ true → d.file ≡ r.1 → load_or_create_id d ≡ (some id, r.1)

kept-Again :
    (id file : Text)
    → trim_space file ≡ id
    → leb 8 (length id) ≡ true
    → Again id (some id, some file)
unfolding load_or_create_id kept_id
kept-Again id file trimmed long d home found =
    rw home
      (ap (kept_id d) found ∙ rw (trimmed, long) (ap (λ (f : Option Text). (some id, f)) found))

write_id-Again :
    (d : Disk) (bs : List ℕ) (makes_dir writes : Bool) (id : Text)
    → length bs ≡ 8
    → (write_id d (hex bs) makes_dir writes).0 ≡ some id
    → Again id (write_id d (hex bs) makes_dir writes)
unfolding write_id trim_space trim_left trim_right
write_id-Again d bs true true id eight e =
    let same : hex bs ≡ id = cc in
    let long : leb 8 (length (hex bs)) ≡ true = ground (arith, length-hex bs) in
    kept-Again id (hex bs ++ b'\n' ∷ [])
      (trim_space-append (hex bs) (b'\n' ∷ []) (hex-IsSolid bs) refl refl ∙ same)
      (ap (λ (t : Text). leb 8 (length t)) (sym same) ∙ long)
write_id-Again d bs true false id eight e = cc
write_id-Again d bs false writes id eight e = cc

create_id-Again :
    (d : Disk) (random : Option (List ℕ)) (id : Text)
    → IsEight random
    → (create_id d random).0 ≡ some id
    → Again id (create_id d random)
unfolding create_id
create_id-Again d none id eight e = cc
create_id-Again d (some bs) id eight e = write_id-Again d bs d.makes_dir d.writes id eight e

checked_id-Again :
    (d : Disk) (b id : Text) (long : Bool)
    → d.file ≡ some b
    → leb 8 (length (trim_space b)) ≡ long
    → IsEight d.random
    → (checked_id d (trim_space b) long).0 ≡ some id
    → Again id (checked_id d (trim_space b) long)
unfolding checked_id
checked_id-Again d b id true here long eight e =
    let same : trim_space b ≡ id = cc in
    let again = kept-Again id b same (ap (λ (t : Text). leb 8 (length t)) (sym same) ∙ long) in
    λ d' home found.
      again d' home (found ∙ here)
      ∙ (let kept : ◌≡◌ {A = Option Text × Option Text} (some id, some b) (some id, d.file) = cc in
          kept)
checked_id-Again d b id false here long eight e = create_id-Again d d.random id eight e

kept_id-Again :
    (d : Disk) (file : Option Text) (id : Text)
    → d.file ≡ file
    → IsEight d.random
    → (kept_id d file).0 ≡ some id
    → Again id (kept_id d file)
unfolding kept_id
kept_id-Again d none id here eight e = create_id-Again d d.random id eight e
kept_id-Again d (some b) id here eight e =
    checked_id-Again d b id (leb 8 (length (trim_space b))) here refl eight e

if_home-Again :
    (d : Disk) (home : Bool) (id : Text)
    → IsEight d.random
    → (if home then kept_id d d.file else (none, d.file)).0 ≡ some id
    → Again id (if home then kept_id d d.file else (none, d.file))
if_home-Again d true id eight e = kept_id-Again d d.file id refl eight e
if_home-Again d false id eight e = cc

-- An ID that `loadOrCreateID` has answered, read or new, is what a later call answers that finds the
-- file as it was left, and the file stays as it is. A new ID is made of eight bytes.
pub load_or_create_id_again :
    (d d' : Disk) (id : Text)
    → IsEight d.random
    → (load_or_create_id d).0 ≡ some id
    → d'.home ≡ true
    → d'.file ≡ (load_or_create_id d).1
    → load_or_create_id d' ≡ (some id, (load_or_create_id d).1)
unfolding load_or_create_id
load_or_create_id_again d d' id eight e home found = if_home-Again d d.home id eight e d' home found
