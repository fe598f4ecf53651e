-- ===== src/IdPool.antt =====
-- The pool of 16-bit IDs for slave connections: src/mod_spdy/apache/id_pool.cc and .h.
-- Alloc and Free run under a lock, so each is one step. The head of `free_list` is the back of the
-- std::vector; `alloc_set` is the std::set without its order, which nothing depends on.
pub mod Distinct
use mod_spdy.Common.{
  ℕ, ◌+◌, ◌-◌, ◌%◌, ◌^◌, ◌==◌, length, Bool, true, false, List, [], ◌∷◌, if◌then◌else◌,
}

pub record IdPool : Type 0 where
  pub free_list : List ℕ
  pub alloc_set : List ℕ
  pub next_never_used : ℕ

abbrev pub over_flow_id : ℕ
over_flow_id = 0xFFFF

abbrev pub create : IdPool
create = record { free_list = []; alloc_set = []; next_never_used = 0 }

unfoldable pub contains : ℕ → List ℕ → Bool
contains id [] = false
contains id (x ∷ xs) = if x == id then true else contains id xs

unfoldable pub insert : ℕ → List ℕ → List ℕ
insert id xs = if contains id xs then xs else id ∷ xs

unfoldable pub erase : ℕ → List ℕ → List ℕ
erase id [] = []
erase id (x ∷ xs) = if x == id then xs else x ∷ erase id xs

-- The end of Alloc, when no ID is free; the counter is an uint16.
unfoldable pub alloc_new : IdPool → ℕ × IdPool
unfolding insert
alloc_new p =
    let id = (p.next_never_used + 1) % 2 ^ 16 in
    if length p.alloc_set == 0x10000 - 2
    then (over_flow_id, p)
    else (id, record p { next_never_used = id; alloc_set = insert id p.alloc_set })

-- Alloc, with the free list taken apart.
unfoldable pub alloc_from : List ℕ → IdPool → ℕ × IdPool
unfolding alloc_new insert
alloc_from [] p = alloc_new p
alloc_from (id ∷ rest) p = (id, record p { free_list = rest; alloc_set = insert id p.alloc_set })

unfoldable pub alloc : IdPool → ℕ × IdPool
unfolding alloc_from
alloc p = alloc_from p.free_list p

unfoldable pub free : ℕ → IdPool → IdPool
free id p =
    if id == over_flow_id
    then p
    else record p { alloc_set = erase id p.alloc_set; free_list = id ∷ p.free_list }
