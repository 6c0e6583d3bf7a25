-- ===== src/Discovery/Tests.antt =====
-- A scan of three announcements, and the theorems of discovery.go at concrete inputs.
use mathlib.Core.List.{mem-cons_self, mem-cons_of_mem}
use potluck.Prelude.{
  ◌≡◌, ◌≢◌, refl, Bool, true, List, [], ◌∷◌, Mem, All, Text, bytes, text_eq, ne_of_text_eq, some,
}
use potluck.Discovery.{
  PeerHint, ServiceEntry, advertised, instance_name, entry_addr, parse_entry, browse_once,
}
use potluck.Discovery.Announced.{parse_advertised}
use potluck.Discovery.Scan.{IsHint, browse_once_sends, browse_once_finds}

abbrev announced : Text → Text → Text → Text → ServiceEntry
announced id name pool ip = record {
  text = advertised id name pool (bytes "dev");
  ipv4 = ip ∷ [];
  ipv6 = bytes "fe80::1" ∷ [];
  port = 11444;
}

abbrev desk : ServiceEntry
desk = announced (bytes "d0d0d0d0") (bytes "desk=top") (bytes "default") (bytes "10.0.0.7")

abbrev scan : List (ServiceEntry × Bool)
scan =
    (announced (bytes "aaaaaaaa") (bytes "laptop") (bytes "default") (bytes "10.0.0.5"), true)
    ∷ (announced (bytes "bbbbbbbb") (bytes "other") (bytes "office") (bytes "10.0.0.6"), true)
    ∷ (desk, true)
    ∷ []

abbrev desk_hint : PeerHint
desk_hint = record {
  id = bytes "d0d0d0d0";
  name = bytes "desk=top";
  pool = bytes "default";
  addr = bytes "10.0.0.7:11444";
}

one_peer : browse_once (bytes "aaaaaaaa") (bytes "default") scan ≡ desk_hint ∷ []
unfolding browse_once advertised
one_peer = refl

short_name : instance_name (bytes "desk") (bytes "d0d0d0d0") ≡ bytes "desk-d0d0d0"
unfolding instance_name
short_name = refl

reached : entry_addr desk ≡ some (bytes "10.0.0.7:11444")
unfolding entry_addr
reached = refl

named : bytes "d0d0d0d0" ≢ []
named e = cc

other : bytes "d0d0d0d0" ≢ bytes "aaaaaaaa"
unfolding text_eq
other = ne_of_text_eq (bytes "d0d0d0d0") (bytes "aaaaaaaa") refl

parse_advertised_example : parse_entry desk ≡ some desk_hint
parse_advertised_example =
    parse_advertised (bytes "d0d0d0d0") (bytes "desk=top") (bytes "default") (bytes "dev")
      (bytes "10.0.0.7:11444") desk named refl reached

browse_once_sends_example :
    All
      (IsHint (bytes "aaaaaaaa") (bytes "default") scan)
      (browse_once (bytes "aaaaaaaa") (bytes "default") scan)
browse_once_sends_example = browse_once_sends (bytes "aaaaaaaa") (bytes "default") scan

browse_once_finds_example : Mem desk_hint (browse_once (bytes "aaaaaaaa") (bytes "default") scan)
browse_once_finds_example =
    browse_once_finds (bytes "aaaaaaaa") (bytes "default") (bytes "d0d0d0d0") (bytes "desk=top")
      (bytes "dev") (bytes "10.0.0.7:11444") desk scan named other refl reached
      (refl, (refl, (refl, tt))) (mem-cons_of_mem _ (mem-cons_of_mem _ mem-cons_self))
