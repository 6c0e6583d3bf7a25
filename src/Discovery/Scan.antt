-- ===== src/Discovery/Scan.antt =====
-- discovery.go: which hints a scan sends.
use mathlib.Core.List.{Mem-prop, mem-cons, mem-cons_self, mem-cons_of_mem, not-mem-nil}
use mathlib.Core.Logic.Or
use potluck.Prelude.{
  ◌≡◌, ◌≢◌, refl, sym, ap, ◌∙◌, subst, inl, inr, Bool, true, false, List, [], ◌∷◌, Mem, All,
  All_map, Text, text_eq_iff, Option, none, some, Bool-cases, arith,
}
use potluck.Discovery.{
  PeerHint, ServiceEntry, entry_addr, advertised, parse_entry, is_peer, if_peer, hint_of, send,
  browse_once,
}
use potluck.Discovery.Announced.{parse_advertised}

-- A named node of this pool other than the one that scans, at the address of some entry.
pub record IsHint (self_id pool : Text) (es : List (ServiceEntry × Bool)) (h : PeerHint)
    : Type 0 where
  pub other : h.id ≢ self_id
  pub same_pool : h.pool ≡ pool
  pub entry : ServiceEntry × Bool
  pub listed : Mem entry es
  pub parsed : parse_entry entry.0 ≡ some h

is_peer_other :
    (self_id pool : Text) (h : PeerHint)
    → is_peer self_id pool h ≡ true
    → (h.id ≢ self_id) × (h.pool ≡ pool)
unfolding is_peer
is_peer_other self_id pool h peer =
    (λ e. ground (arith, text_eq_iff h.id self_id), ground (arith, text_eq_iff h.pool pool))

if_peer-eq-some :
    (self_id pool : Text) (o : Option PeerHint) (h : PeerHint)
    → if_peer self_id pool o ≡ some h
    → (o ≡ some h) × (is_peer self_id pool h ≡ true)
unfolding if_peer
if_peer-eq-some self_id pool none h e = cc
if_peer-eq-some self_id pool (some k) h e = elim (Bool-cases (is_peer self_id pool k)) [
  | inl peer ↦
      let same : some k ≡ some h = rw peer at e in
      let here : k ≡ h = cc in
      (same, subst (λ (x : PeerHint). is_peer self_id pool x ≡ true) here peer)
  | inr other ↦
      absurd (let none_left : ◌≡◌ {A = Option PeerHint} none (some h) = rw other at e in cc)
]

module _ (self_id pool : Text) where
  IsHint-cons :
      (e : ServiceEntry × Bool) (es : List (ServiceEntry × Bool)) (h : PeerHint)
      → IsHint self_id pool es h
      → IsHint self_id pool (e ∷ es) h
  IsHint-cons e es h i = record {
    other = i.other;
    same_pool = i.same_pool;
    entry = i.entry;
    listed = mem-cons_of_mem e i.listed;
    parsed = i.parsed;
  }

  All-IsHint_cons :
      (e : ServiceEntry × Bool) (es : List (ServiceEntry × Bool)) (hs : List PeerHint)
      → All (IsHint self_id pool es) hs
      → All (IsHint self_id pool (e ∷ es)) hs
  All-IsHint_cons e es hs a = All_map _ _ hs (λ h i. IsHint-cons e es h i) a

  send-IsHint :
      (P : PeerHint → Type 0) (o : Option PeerHint) (taken : Bool) (others : List PeerHint)
      → ((h : PeerHint) → o ≡ some h → P h)
      → All P others
      → All P (send o taken others)
  unfolding send
  send-IsHint P none taken others p a = a
  send-IsHint P (some h) true others p a = (p h refl, a)
  send-IsHint P (some h) false others p a = tt

  hint_of-IsHint :
      (e : ServiceEntry) (taken : Bool) (es : List (ServiceEntry × Bool)) (h : PeerHint)
      → hint_of self_id pool e ≡ some h
      → IsHint self_id pool ((e, taken) ∷ es) h
  unfolding hint_of
  hint_of-IsHint e taken es h found =
      let (parsed, peer) = if_peer-eq-some self_id pool (parse_entry e) h found in
      let (other, same_pool) = is_peer_other self_id pool h peer in
      record {
        other = other;
        same_pool = same_pool;
        entry = (e, taken);
        listed = mem-cons_self;
        parsed = parsed;
      }

  -- Every hint that a scan sends, also one that is cut short, is what one of its entries says, of a
  -- node of this pool other than the one that scans.
  pub browse_once_sends :
      (es : List (ServiceEntry × Bool)) → All (IsHint self_id pool es) (browse_once self_id pool es)
  unfolding browse_once
  browse_once_sends [] = tt
  browse_once_sends ((e, taken) ∷ rest) =
      send-IsHint (IsHint self_id pool ((e, taken) ∷ rest)) (hint_of self_id pool e) taken _
        (λ h found. hint_of-IsHint e taken rest h found)
        (All-IsHint_cons (e, taken) rest (browse_once self_id pool rest) (browse_once_sends rest))

  mem-send :
      (o : Option PeerHint) (others : List PeerHint) (h : PeerHint)
      → Mem h others
      → Mem h (send o true others)
  unfolding send
  mem-send none others h m = m
  mem-send (some k) others h m = mem-cons_of_mem k m

  mem-send_self :
      (o : Option PeerHint) (others : List PeerHint) (h : PeerHint)
      → o ≡ some h
      → Mem h (send o true others)
  unfolding send
  mem-send_self none others h e = cc
  mem-send_self (some k) others h e = let here : h ≡ k = cc in mem-cons.1 (Or.inl here)

  mem-browse_once :
      (es : List (ServiceEntry × Bool)) (e : ServiceEntry) (h : PeerHint)
      → All (λ (x : ServiceEntry × Bool). x.1 ≡ true) es
      → Mem (e, true) es
      → hint_of self_id pool e ≡ some h
      → Mem h (browse_once self_id pool es)
  unfolding browse_once
  mem-browse_once [] e h taken m found = absurd (not-mem-nil m)
  mem-browse_once ((d, true) ∷ rest) e h taken m found =
      Or.elim Mem-prop (mem-cons.0 m)
        (λ same.
          mem-send_self (hint_of self_id pool d) _ h
            (ap (λ (x : ServiceEntry × Bool). hint_of self_id pool x.0) (sym same) ∙ found))
        (λ t. mem-send (hint_of self_id pool d) _ h (mem-browse_once rest e h taken.1 t found))
  mem-browse_once ((d, false) ∷ rest) e h taken m found = cc

  hint_of-peer :
      (e : ServiceEntry) (h : PeerHint)
      → parse_entry e ≡ some h
      → h.id ≢ self_id
      → h.pool ≡ pool
      → hint_of self_id pool e ≡ some h
  unfolding hint_of if_peer is_peer
  hint_of-peer e h parsed other same_pool =
      ap (if_peer self_id pool) parsed
      ∙ ground (arith, text_eq_iff h.id self_id, text_eq_iff h.pool pool)

  -- A scan that is not cut short sends the hint of every other node of the pool whose announcement
  -- it has resolved to an address, with the node's ID and name.
  pub browse_once_finds :
      (id name version addr : Text) (e : ServiceEntry) (es : List (ServiceEntry × Bool))
      → id ≢ []
      → id ≢ self_id
      → e.text ≡ advertised id name pool version
      → entry_addr e ≡ some addr
      → All (λ (x : ServiceEntry × Bool). x.1 ≡ true) es
      → Mem (e, true) es
      → Mem
          (record { id = id; name = name; pool = pool; addr = addr })
          (browse_once self_id pool es)
  browse_once_finds id name version addr e es named other announced reached taken listed =
      let parsed = parse_advertised id name pool version addr e named announced reached in
      mem-browse_once es e (record { id = id; name = name; pool = pool; addr = addr }) taken listed
        (hint_of-peer e (record { id = id; name = name; pool = pool; addr = addr }) parsed other
          refl)
