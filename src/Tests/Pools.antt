-- ===== src/Tests/Pools.antt =====
-- Runs of id_pool.cc.
use mod_spdy.Common.{◌≡◌, refl, inr, [], ◌∷◌}
use mod_spdy.IdPool.{IdPool, create, contains, erase, insert, alloc, free}
use mod_spdy.IdPool.Distinct.{Reach, starts, allocs, frees, Allocates, alloc-Allocates}

-- Two IDs are taken and the first is freed.
abbrev pool : IdPool
pool = free 1 (alloc (alloc create).1).1

first_freed : pool ≡ record { free_list = 1 ∷ []; alloc_set = 2 ∷ []; next_never_used = 2 }
unfolding alloc free erase insert contains
first_freed = refl

pool-Reach : Reach pool
unfolding alloc contains insert
pool-Reach = frees 1 (inr refl) (allocs (allocs starts))

alloc-Allocates_example : Allocates pool (alloc pool)
alloc-Allocates_example = alloc-Allocates pool-Reach
