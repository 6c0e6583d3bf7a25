-- ===== src/Cli/Status/Shown.antt =====
-- main.go: when `potluck status` prints the pool, and when it panics.
use potluck.Prelude.{
  ℕ, ◌+◌, ◌^◌, ◌<◌, ◌≡◌, refl, sym, ap, subst, inl, inr, Bool, true, false, ◌&&◌, List, [], ◌∷◌,
  map, All, ltb, if◌then◌else◌, none, some, arith,
}
use potluck.Registry.{NodeState}
use potluck.Agent.{PoolView}
use potluck.Cli.{Printed, plain, scaled}
use potluck.Cli.Amounts.{fmt_bytes_lem}
use potluck.Cli.Status.{
  Title, Row, Output, returned, amount, add_row, device_of, rows_of, below_title, show, pool_is,
  status,
}

-- Below an exbibyte.
abbrev pub fits : ℕ → Bool
fits n = ltb n (2 ^ 60)

abbrev pub node_fits : NodeState → Bool
node_fits n = fits n.resources.mem_available

abbrev pub all_fit : List NodeState → Bool
all_fit [] = true
all_fit (n ∷ ns) = node_fits n && all_fit ns

-- The nodes before the first that does not fit.
abbrev pub until_panic : List NodeState → List NodeState
until_panic [] = []
until_panic (n ∷ ns) = if node_fits n then n ∷ until_panic ns else []

abbrev pub IsUint64 : ℕ → Type 0
IsUint64 n = n < 2 ^ 64

amount-fits : (n : ℕ) → IsUint64 n → fits n ≡ true → (p : Printed) × (amount n ≡ some p)
unfolding amount returned
amount-fits n bound h = elim (fmt_bytes_lem n bound) [
  | inl (few, e) ↦ (plain n, ap returned e)
  | inr (inl (from, below, s)) ↦ (scaled n (1024 ^ (s.exp + 1)) s.letter, ap returned s.printed)
  | inr (inr (above, e)) ↦ absurd (ground arith)
]

amount_panics : (n : ℕ) → IsUint64 n → fits n ≡ false → amount n ≡ none
unfolding amount returned
amount_panics n bound h = elim (fmt_bytes_lem n bound) [
  | inl (few, e) ↦ absurd (ground arith)
  | inr (inl (from, below, s)) ↦ absurd (ground arith)
  | inr (inr (above, e)) ↦ ap returned e
]

-- The rows that the loop prints.
pub record IsShown (ns : List NodeState) (x : List Row × Bool) : Type 0 where
  pub devices : map (λ (r : Row). r.device) x.0 ≡ map device_of (until_panic ns)
  pub ends : x.1 ≡ all_fit ns

add_row-some :
    (n : NodeState) (ns : List NodeState) (rows : List Row × Bool) (free : Printed)
    → IsShown ns rows
    → node_fits n ≡ true
    → IsShown (n ∷ ns) (add_row n rows (some free))
unfolding add_row
add_row-some n ns rows free h e = record {
  devices = rw e (ap (◌∷◌ (device_of n)) h.devices);
  ends = rw e h.ends;
}

add_row-none :
    (n : NodeState) (ns : List NodeState) (rows : List Row × Bool)
    → node_fits n ≡ false
    → IsShown (n ∷ ns) (add_row n rows none)
unfolding add_row
add_row-none n ns rows e = record { devices = rw e refl; ends = rw e refl }

row-IsShown :
    (n : NodeState) (ns : List NodeState) (rows : List Row × Bool)
    → IsUint64 n.resources.mem_available
    → IsShown ns rows
    → (b : Bool) → node_fits n ≡ b
    → IsShown (n ∷ ns) (add_row n rows (amount n.resources.mem_available))
row-IsShown n ns rows bound h true e =
    let (free, found) = amount-fits n.resources.mem_available bound e in
    subst (λ o. IsShown (n ∷ ns) (add_row n rows o)) (sym found) (add_row-some n ns rows free h e)
row-IsShown n ns rows bound h false e =
    subst (λ o. IsShown (n ∷ ns) (add_row n rows o))
      (sym (amount_panics n.resources.mem_available bound e)) (add_row-none n ns rows e)

rows_of-IsShown :
    (ns : List NodeState)
    → All (λ n. IsUint64 n.resources.mem_available) ns
    → IsShown ns (rows_of ns)
unfolding rows_of
rows_of-IsShown [] bounds = record { devices = refl; ends = refl }
rows_of-IsShown (n ∷ ns) bounds =
    row-IsShown n ns (rows_of ns) bounds.0 (rows_of-IsShown ns bounds.1) (node_fits n) refl

-- The whole view can be printed.
abbrev pub view_fits : PoolView → Bool
view_fits v = fits v.total_mem && fits v.available_mem && all_fit v.nodes

pub record IsStatus (v : PoolView) (o : Output) : Type 0 where
  pub exit : o.exit ≡ (if view_fits v then some 0 else none)
  pub devices : map (λ (r : Row). r.device) o.rows ≡ (
      if fits v.total_mem && fits v.available_mem then map device_of (until_panic v.nodes) else [])

below-IsStatus :
    (v : PoolView) (title : Title) (x : List Row × Bool)
    → IsShown v.nodes x
    → fits v.total_mem ≡ true
    → fits v.available_mem ≡ true
    → IsStatus v (below_title v title x)
unfolding below_title
below-IsStatus v title (rows, true) h total available = record {
  exit = rw (total, available, sym h.ends) refl;
  devices = rw (total, available) h.devices;
}
below-IsStatus v title (rows, false) h total available = record {
  exit = rw (total, available, sym h.ends) refl;
  devices = rw (total, available) h.devices;
}

show-IsStatus :
    (v : PoolView)
    → IsUint64 v.total_mem
    → IsUint64 v.available_mem
    → All (λ n. IsUint64 n.resources.mem_available) v.nodes
    → (b c : Bool) → fits v.total_mem ≡ b
    → fits v.available_mem ≡ c
    → IsStatus v (show v (amount v.total_mem) (amount v.available_mem))
unfolding show
show-IsStatus v t a ns true true e f =
    let (total, shows) = amount-fits v.total_mem t e in
    let (available, shows') = amount-fits v.available_mem a f in
    subst (λ o. IsStatus v (show v o (amount v.available_mem))) (sym shows)
      (subst (λ o. IsStatus v (show v (some total) o)) (sym shows')
        (below-IsStatus v _ (rows_of v.nodes) (rows_of-IsShown v.nodes ns) e f))
show-IsStatus v t a ns true false e f =
    let (total, shows) = amount-fits v.total_mem t e in
    subst (λ o. IsStatus v (show v o (amount v.available_mem))) (sym shows)
      (subst (λ o. IsStatus v (show v (some total) o)) (sym (amount_panics v.available_mem a f))
        (record { exit = rw (e, f) refl; devices = rw (e, f) refl }))
show-IsStatus v t a ns false c e f =
    subst (λ o. IsStatus v (show v o (amount v.available_mem)))
      (sym (amount_panics v.total_mem t e)) (record { exit = rw e refl; devices = rw e refl })

-- `potluck status` exits with 0 if every amount of the pool it was answered is below an exbibyte, and
-- panics if one is not. Before that it has printed a row for each of the nodes, in order, up to the
-- first whose memory is an exbibyte or more, or nothing if that holds of a sum.
pub status-IsStatus :
    (v : PoolView)
    → IsUint64 v.total_mem
    → IsUint64 v.available_mem
    → All (λ n. IsUint64 n.resources.mem_available) v.nodes
    → IsStatus v (status (pool_is v))
unfolding status
status-IsStatus v t a ns =
    show-IsStatus v t a ns (fits v.total_mem) (fits v.available_mem) refl refl
