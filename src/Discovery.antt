-- ===== src/Discovery.antt =====
-- internal/discovery/discovery.go: what a node announces over mDNS and which announcements it takes
-- for peers. The zeroconf library is an argument: an entry is what it has resolved.
pub mod Announced
pub mod Scan
mod Tests
use potluck.Prelude.{
  ℕ, ◌<◌, Bool, true, false, not, ◌||◌, List, [], ◌∷◌, ◌++◌, length, take, Text, bytes, text_eq,
  ltb, ◌==◌, if◌then◌else◌, Option, none, some,
}
use potluck.Prelude.Decimal.{decimal}

-- A peer found, before its state has been fetched.
pub record PeerHint : Type 0 where
  pub id : Text
  pub name : Text
  pub pool : Text
  pub addr : Text

-- `zeroconf.ServiceEntry`, its addresses as they are printed.
pub record ServiceEntry : Type 0 where
  pub text : List Text
  pub ipv4 : List Text
  pub ipv6 : List Text
  pub port : ℕ

-- The TXT records that `Advertise` registers.
unfoldable pub advertised : Text → Text → Text → Text → List Text
advertised id name pool version =
    (bytes "id=" ++ id)
    ∷ (bytes "name=" ++ name)
    ∷ (bytes "pool=" ++ pool)
    ∷ (bytes "version=" ++ version)
    ∷ []

-- A name with the first six bytes of the ID.
unfoldable pub instance_name : Text → Text → Text
instance_name name id = name ++ b'-' ∷ (if ltb 6 (length id) then take 6 id else id)

-- `strings.Cut` at the first such byte.
unfoldable pub cut : ℕ → Text → Option (Text × Text)
cut c [] = none
cut c (b ∷ s) =
    let rest = cut c s in
    if b == c
    then some ([], s)
    else (elim rest [ none ↦ none | some (before, after) ↦ some (b ∷ before, after) ])

-- The `switch` on one key.
pub set_key : Text → Text → PeerHint → PeerHint
unfolding text_eq
set_key k v h =
    if text_eq k (bytes "id")
    then record h { id = v }
    else if text_eq k (bytes "name")
    then record h { name = v }
    else if text_eq k (bytes "pool")
    then record h { pool = v }
    else h

-- The loop over the TXT records.
pub read_text : List Text → PeerHint → PeerHint
unfolding cut set_key
read_text [] h = h
read_text (kv ∷ rest) h =
    read_text rest (elim (cut b'=' kv) [ none ↦ h | some (k, v) ↦ set_key k v h ])

-- The first IPv4 address, or else the first IPv6 address.
unfoldable pub entry_addr : ServiceEntry → Option Text
unfolding decimal
entry_addr e = elim e.ipv4 [
  | ip ∷ _ ↦ some (ip ++ b':' ∷ decimal e.port)
  | [] ↦ elim e.ipv6 [ ip ∷ _ ↦ some (b'[' ∷ ip ++ bytes "]:" ++ decimal e.port) | [] ↦ none ]
]

pub with_addr : PeerHint → Option Text → Option PeerHint
with_addr h none = none
with_addr h (some addr) = if length h.id == 0 then none else some (record h { addr = addr })

-- Without an ID or without an address the entry is no hint.
unfoldable pub parse_entry : ServiceEntry → Option PeerHint
unfolding read_text entry_addr with_addr
parse_entry e =
    with_addr (read_text e.text (record { id = []; name = []; pool = []; addr = [] }))
      (entry_addr e)

-- The test of `browseOnce`.
pub is_peer : Text → Text → PeerHint → Bool
unfolding text_eq
is_peer self_id pool h = not (text_eq h.id self_id || not (text_eq h.pool pool))

pub if_peer : Text → Text → Option PeerHint → Option PeerHint
unfolding is_peer
if_peer self_id pool none = none
if_peer self_id pool (some h) = if is_peer self_id pool h then some h else none

-- One entry: its hint, if it is one of a peer.
pub hint_of : Text → Text → ServiceEntry → Option PeerHint
unfolding parse_entry if_peer
hint_of self_id pool e = if_peer self_id pool (parse_entry e)

-- `taken` tells whether the receiver takes the hint before the context ends.
pub send : Option PeerHint → Bool → List PeerHint → List PeerHint
send none taken others = others
send (some h) taken others = if taken then h ∷ others else []

-- The hints that a scan sends, in order.
unfoldable pub browse_once : Text → Text → List (ServiceEntry × Bool) → List PeerHint
unfolding hint_of send
browse_once self_id pool [] = []
browse_once self_id pool ((e, taken) ∷ rest) =
    send (hint_of self_id pool e) taken (browse_once self_id pool rest)
