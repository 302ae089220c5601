-- ===== src/Dockercli/Cache.antt =====
-- internal/dockercli/lru_cache.go: the cache of the most recently used entries. An element of the
-- linked list is known by a number, which the map holds as Go's holds a pointer. Each method runs
-- under the cache's lock, so it is one step. A size below zero counts as zero.
pub mod Recency
pub mod Refine
pub mod Valid
mod Tests
use dockform.Base.{
  ℕ, zero, suc, ◌+◌, Bool, true, false, not, Option, none, some, List, [], ◌∷◌, ◌==◌, if◌then◌else◌,
  Eq, nat_eq, nat_beq, leb, length, select, map,
}
use dockform.Base.Dict.{Dict, lookup, insert, erase}

pub record Entry (K V : Type 0) : Type 0 where
  pub id : ℕ
  pub key : K
  pub value : V

-- `order`: the most recent entry first. `fresh`: the number of the next element.
pub record LruCache (K V : Type 0) : Type 0 where
  pub max_size : ℕ
  pub items : Dict K ℕ
  pub order : List (Entry K V)
  pub fresh : ℕ

unfoldable pub new_lru_cache : {K V : Type 0} → ℕ → LruCache K V
new_lru_cache max_size = record {
  max_size = if nat_beq max_size 0 then 100 else max_size;
  items = [];
  order = [];
  fresh = 0;
}

module _ {K V : Type 0} where
  abbrev pub entry_at : ℕ → List (Entry K V) → Option (Entry K V)
  entry_at i [] = none
  entry_at i (n ∷ ns) = if nat_beq n.id i then some n else entry_at i ns

  -- `order.Remove`
  abbrev pub without : ℕ → List (Entry K V) → List (Entry K V)
  without i = select (λ n. not (nat_beq n.id i))

  abbrev to_front : Option (Entry K V) → ℕ → List (Entry K V) → List (Entry K V)
  to_front none i ns = ns
  to_front (some n) i ns = n ∷ without i ns

  -- `order.MoveToFront`
  abbrev pub move_to_front : ℕ → List (Entry K V) → List (Entry K V)
  move_to_front i ns = to_front (entry_at i ns) i ns

  -- The assignment to the value of an element.
  abbrev pub set_value : ℕ → V → List (Entry K V) → List (Entry K V)
  set_value i v = map (λ n. if nat_beq n.id i then record n { value = v } else n)

  -- `order.Back`
  abbrev pub back : List (Entry K V) → Option (Entry K V)
  back [] = none
  back (n ∷ []) = some n
  back (n ∷ m ∷ ns) = back (m ∷ ns)

  abbrev value_of : Option (Entry K V) → Option V
  value_of none = none
  value_of (some n) = some n.value

module _ {K V : Type 0} ⦃e : Eq K⦄ where
  abbrev pub get_found : Option ℕ → LruCache K V → Option V × LruCache K V
  get_found none c = (none, c)
  get_found (some i) c =
      (value_of (entry_at i c.order), record c { order = move_to_front i c.order })

  unfoldable pub get : K → LruCache K V → Option V × LruCache K V
  get key c = get_found (lookup key c.items) c

  abbrev pub drop_oldest : Entry K V → LruCache K V → LruCache K V
  drop_oldest n c = record c { items = erase n.key c.items; order = without n.id c.order }

  -- The eviction loop, on fuel.
  unfoldable pub evict : ℕ → LruCache K V → LruCache K V
  evict zero c = c
  evict (suc fuel) c = elim (back c.order) [
    | none ↦ c
    | some n ↦
        let rest = evict fuel (drop_oldest n c) in
        if leb c.max_size (length c.order) then rest else c
  ]

  abbrev pub push : K → V → LruCache K V → LruCache K V
  push key value c = record {
    max_size = c.max_size;
    items = insert key c.fresh c.items;
    order = record { id = c.fresh; key = key; value = value } ∷ c.order;
    fresh = suc c.fresh;
  }

  abbrev pub set_found : Option ℕ → K → V → LruCache K V → LruCache K V
  set_found (some i) key value c = record c { order = set_value i value (move_to_front i c.order) }
  set_found none key value c = push key value (evict (suc (length c.order)) c)

  -- The loop removes an element a turn: one more turn than elements is enough.
  unfoldable pub set : K → V → LruCache K V → LruCache K V
  unfolding evict
  set key value c = set_found (lookup key c.items) key value c

unfoldable pub len : {K V : Type 0} → LruCache K V → ℕ
len c = length c.order

unfoldable clear : {K V : Type 0} → LruCache K V → LruCache K V
clear c = record c { items = []; order = [] }
