-- ===== src/IdPool/Distinct.antt =====
-- IDs of id_pool.cc in use at the same time.
use mod_spdy.Common.{
  ℕ, suc, ◌+◌, ◌-◌, ◌≤◌, ◌<◌, ◌==◌, ==_iff, ◌≡◌, ◌≢◌, ◌%◌, ap, Bool-cases, ◌⊎◌, inl, inr, refl, ltb,
  leb, length, true, false, ◌&&◌, List, [], ◌∷◌, if◌then◌else◌, arith,
}
use mod_spdy.IdPool.{
  IdPool, over_flow_id, create, contains, insert, erase, alloc_new, alloc_from, alloc, free,
}

-- A pool after any calls of Alloc, and of Free with an ID that is in use or the overflow ID.
pub data Reach : IdPool → Type 0 where
  starts : Reach create
  allocs : {p : IdPool} → Reach p → Reach (alloc p).1
  frees :
      {p : IdPool} (id : ℕ)
      → (id ≡ over_flow_id) ⊎ (contains id p.alloc_set ≡ true)
      → Reach p
      → Reach (free id p)

abbrev count : ℕ → List ℕ → ℕ
count id [] = 0
count id (x ∷ xs) = if x == id then suc (count id xs) else count id xs

contains_eq : (id : ℕ) (xs : List ℕ) → contains id xs ≡ ltb 0 (count id xs)
unfolding contains
contains_eq id [] = refl
contains_eq id (x ∷ xs) = ground (arith, contains_eq id xs)

count-erase :
    (j id : ℕ) (xs : List ℕ)
    → count j (erase id xs) ≡ (if j == id then count j xs - 1 else count j xs)
unfolding erase
count-erase j id [] = ground arith
count-erase j id (x ∷ xs) = ground (arith, count-erase j id xs)

length-erase : (id : ℕ) (xs : List ℕ) → 0 < count id xs → length (erase id xs) + 1 ≡ length xs
unfolding erase
length-erase id [] h = absurd (omega arith)
length-erase id (x ∷ xs) h = ground (arith, length-erase id xs)

-- Each ID up to the counter is free or in use, once.
record IsValid (p : IdPool) : Type 0 where
  ids :
      (j : ℕ)
      → count j p.free_list + count j p.alloc_set
        ≡ (if ltb 0 j && leb j p.next_never_used then 1 else 0)
  sizes : length p.free_list + length p.alloc_set ≡ p.next_never_used
  bound : p.next_never_used ≤ 0xFFFE

-- What Alloc may do to a pool: it returns the overflow ID, changes nothing, and all 65534 IDs are in
-- use; or it returns an ID that is neither 0 nor the overflow ID nor in use, and puts it in use.
abbrev pub Allocates : IdPool → ℕ × IdPool → Type 0
Allocates p (id, p') =
    ((id ≡ over_flow_id) × (p' ≡ p) × (length p.alloc_set ≡ 0xFFFE))
    ⊎ ((0 < id)
        × (id < over_flow_id)
        × (contains id p.alloc_set ≡ false)
        × (p'.alloc_set ≡ id ∷ p.alloc_set))

abbrev taking : ℕ → List ℕ → ℕ → IdPool → IdPool
taking id free_list next p = record {
  free_list = free_list;
  alloc_set = id ∷ p.alloc_set;
  next_never_used = next;
}

new-IsValid :
    (p : IdPool)
    → p.free_list ≡ []
    → length p.alloc_set ≢ 0xFFFE
    → IsValid p
    → IsValid (taking (p.next_never_used + 1) p.free_list (p.next_never_used + 1) p)
      × (p.next_never_used < 0xFFFE)
      × (contains (p.next_never_used + 1) p.alloc_set ≡ false)
new-IsValid p h room v =
    let none_free = ap length h in
    let size = v.sizes in
    let bound = v.bound in
    (
      record { ids = λ j. ground (arith, v.ids j); sizes = omega arith; bound = omega arith },
      omega arith,
      ground
          (arith, contains_eq (p.next_never_used + 1) p.alloc_set, v.ids (p.next_never_used + 1)),
    )

alloc_new-IsValid :
    (p : IdPool)
    → p.free_list ≡ []
    → IsValid p
    → IsValid (alloc_new p).1 × Allocates p (alloc_new p)
unfolding alloc_new insert
alloc_new-IsValid p h v = elim (Bool-cases (length p.alloc_set == 0xFFFE)) [
  | inl full ↦
      rw full (v, inl (refl, refl, omega (arith, (==_iff (length p.alloc_set) 0xFFFE).0 full)))
  | inr room ↦
      let (v', fits, fresh) = new-IsValid p h (λ e. ground (arith, e)) v in
      let same : (p.next_never_used + 1) % 65536 ≡ p.next_never_used + 1 = omega arith in
      rw (room, same, fresh) (v', inr (omega arith, omega arith, refl, refl))
]

reused-IsValid :
    (id : ℕ) (rest : List ℕ) (p : IdPool)
    → p.free_list ≡ id ∷ rest
    → IsValid p
    → IsValid (taking id rest p.next_never_used p)
      × (0 < id)
      × (id < over_flow_id)
      × (contains id p.alloc_set ≡ false)
reused-IsValid id rest p h v =
    let counts : (j : ℕ) → count j p.free_list ≡ count j (id ∷ rest) = λ j. ap (count j) h in
    let size = v.sizes in
    let bound = v.bound in
    let lengths = ap length h in
    (
      record { ids = λ j. ground (arith, v.ids j, counts j); sizes = omega arith; bound = bound },
      ground (arith, v.ids id, counts id),
      ground (arith, v.ids id, counts id),
      ground (arith, contains_eq id p.alloc_set, v.ids id, counts id),
    )

alloc_from-IsValid :
    (ids : List ℕ) (p : IdPool)
    → p.free_list ≡ ids
    → IsValid p
    → IsValid (alloc_from ids p).1 × Allocates p (alloc_from ids p)
unfolding alloc_from insert
alloc_from-IsValid [] p h v = alloc_new-IsValid p h v
alloc_from-IsValid (id ∷ rest) p h v =
    let (v', positive, fits, fresh) = reused-IsValid id rest p h v in
    rw fresh (v', inr (positive, fits, refl, refl))

free-IsValid :
    (id : ℕ) (p : IdPool)
    → (id ≡ over_flow_id) ⊎ (contains id p.alloc_set ≡ true)
    → IsValid p
    → IsValid (free id p)
unfolding free
free-IsValid id p h v =
    let size = v.sizes in
    let bound = v.bound in
    record {
      ids = λ j. ground (arith, v.ids j, count-erase j id p.alloc_set, contains_eq id p.alloc_set);
      sizes = ground (arith, contains_eq id p.alloc_set, length-erase id p.alloc_set);
      bound = ground arith;
    }

Reach-IsValid : {p : IdPool} → Reach p → IsValid p
unfolding alloc
Reach-IsValid starts = record { ids = λ j. ground arith; sizes = refl; bound = omega arith }
Reach-IsValid (allocs {p} r) = (alloc_from-IsValid p.free_list p refl (Reach-IsValid r)).0
Reach-IsValid (frees {p} id h r) = free-IsValid id p h (Reach-IsValid r)

-- Alloc on any pool that Alloc and Free have brought about, if only IDs in use are freed: it returns
-- the overflow ID, changes nothing, and all 65534 IDs are in use; or it returns an ID that is neither
-- 0 nor the overflow ID nor in use, and puts it in use.
pub alloc-Allocates : {p : IdPool} → Reach p → Allocates p (alloc p)
unfolding alloc
alloc-Allocates {p} r = (alloc_from-IsValid p.free_list p refl (Reach-IsValid r)).1
