-- ===== src/Array.antt =====
-- zeromq-4.3.1/src/array.hpp: an array of items each of which stores its own index. An item is a number, its
-- address, and never NULL; `index` holds the `_array_index` of every item. `failed` is not in the code: an
-- access out of range sets it, and nothing resets it.
pub mod Laws
use zmq.Base.{
  ℕ, ◌+◌, ◌-◌, ◌==◌, if◌then◌else◌, Option, none, some, List, [], ◌∷◌, ◌++◌, length, get_elem?, set,
  get_last?, drop_last, Bool, true, false, ◌||◌, leb,
}

pub record Array : Type 0 where
  pub items : List ℕ
  pub index : ℕ → ℕ
  pub failed : Bool

-- `set_array_index` of the item `k`.
abbrev pub set_index : (ℕ → ℕ) → ℕ → ℕ → ℕ → ℕ
set_index f k i j = if j == k then i else f j

abbrev pub empty : Array
empty = record { items = []; index = λ _. 0; failed = false }

abbrev pub size : Array → ℕ
size a = length a.items

unfoldable pub push_back : Array → ℕ → Array
push_back a item = record {
  items = a.items ++ item ∷ [];
  index = set_index a.index item (length a.items);
  failed = a.failed;
}

pub replace_last : Array → ℕ → Option ℕ → Array
replace_last a i none = record a { failed = true }
replace_last a i (some back) = record {
  items = drop_last (set a.items i back);
  index = set_index a.index back i;
  failed = a.failed || leb (length a.items) i;
}

-- `erase (size_type index_)`: the last item takes the place.
unfoldable pub erase_at : Array → ℕ → Array
unfolding replace_last
erase_at a i = replace_last a i (get_last? a.items)

unfoldable pub erase : Array → ℕ → Array
unfolding erase_at
erase a item = erase_at a (a.index item)

pub swap_items : Array → ℕ → ℕ → Option ℕ → Option ℕ → Array
swap_items a i j (some x) (some y) = record {
  items = set (set a.items i y) j x;
  index = set_index (set_index a.index x j) y i;
  failed = a.failed;
}
swap_items a i j _ _ = record a { failed = true }

-- `swap (size_type index1_, size_type index2_)`.
unfoldable pub swap : Array → ℕ → ℕ → Array
unfolding swap_items
swap a i j = swap_items a i j (get_elem? a.items i) (get_elem? a.items j)
