-- ===== src/Discovery/Announced.antt =====
-- discovery.go: `parseEntry` reads what `Advertise` has announced.
use potluck.Prelude.{◌≡◌, ◌≢◌, refl, ap, ◌∙◌, List, [], ◌∷◌, Text, some, arith}
use potluck.Discovery.{
  PeerHint, ServiceEntry, advertised, read_text, entry_addr, with_addr, parse_entry,
}

read-advertised :
    (id name pool version : Text) (h : PeerHint)
    → read_text (advertised id name pool version) h ≡ record h { id = id; name = name; pool = pool }
unfolding read_text advertised
read-advertised id name pool version h = refl

with_addr-named :
    (id name pool addr : Text)
    → id ≢ []
    → with_addr (record { id = id; name = name; pool = pool; addr = [] }) (some addr)
      ≡ some (record { id = id; name = name; pool = pool; addr = addr })
unfolding with_addr
with_addr-named [] name pool addr named = absurd (named refl)
with_addr-named (b ∷ id) name pool addr named = ground arith

-- What a node announces is read back by a peer that resolves it: its ID, name and pool, whatever
-- bytes they hold, and the address. An ID must not be empty, and the entry must have an address.
pub parse_advertised :
    (id name pool version addr : Text) (e : ServiceEntry)
    → id ≢ []
    → e.text ≡ advertised id name pool version
    → entry_addr e ≡ some addr
    → parse_entry e ≡ some (record { id = id; name = name; pool = pool; addr = addr })
unfolding parse_entry
parse_advertised id name pool version addr e named announced reached =
    let blank : PeerHint = record { id = []; name = []; pool = []; addr = [] } in
    ap (λ (t : List Text). with_addr (read_text t blank) (entry_addr e)) announced
    ∙ (ap (with_addr (read_text (advertised id name pool version) blank)) reached
        ∙ (ap (λ (h : PeerHint). with_addr h (some addr))
              (read-advertised id name pool version blank)
            ∙ with_addr-named id name pool addr named))
