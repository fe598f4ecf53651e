-- ===== src/PriorityQueue/Order.antt =====
-- What the map of spdy_frame_priority_queue.cc holds at each priority, and the order of pops.
use mod_spdy.Common.{
  none, ℤ, ltb_ℤ, eqb_ℤ, ◌<ℤ◌, ◌≡◌, ◌≢◌, refl, List, [], ◌∷◌, ◌++◌, Option, none, some, arith,
  if◌then◌else◌,
}
use mod_spdy.PriorityQueue.{PriorityQueue, insert_at, insert, keep_rest, pop_at, pop}

module _ {A : Type 0} where
  -- The keys rise, all above `low`, and no list is empty.
  abbrev pub Above : ℤ → List (ℤ × List A) → Type 0
  Above low [] = Unit
  Above low ((k, l) ∷ m) = (low <ℤ k) × (l ≢ []) × Above k m

  abbrev pub IsSorted : List (ℤ × List A) → Type 0
  IsSorted [] = Unit
  IsSorted ((k, l) ∷ m) = (l ≢ []) × Above k m

  abbrev pub IsValid : PriorityQueue A → Type 0
  IsValid q = IsSorted q.queue_map

  -- The frames that wait at a priority, oldest first.
  pub frames_in : ℤ → List (ℤ × List A) → List A
  frames_in p [] = []
  frames_in p ((k, l) ∷ m) = if eqb_ℤ p k then l else frames_in p m

  abbrev pub frames_at : ℤ → PriorityQueue A → List A
  frames_at p q = frames_in p q.queue_map

  snoc-ne-nil : (l : List A) (f : A) → l ++ f ∷ [] ≢ []
  snoc-ne-nil [] f = λ e. cc
  snoc-ne-nil (x ∷ l) f = λ e. cc

  insert_at-Above :
      (low p : ℤ) (f : A) (m : List (ℤ × List A))
      → low <ℤ p
      → Above low m
      → Above low (insert_at p f m)
  unfolding insert_at
  insert_at-Above low p f [] h a = ground arith
  insert_at-Above low p f ((k, l) ∷ m) h a =
      ground (arith, snoc-ne-nil l f, insert_at-Above k p f m)

  insert-IsValid : (p : ℤ) (f : A) (m : List (ℤ × List A)) → IsSorted m → IsSorted (insert_at p f m)
  unfolding insert_at
  insert-IsValid p f [] s = ground arith
  insert-IsValid p f ((k, l) ∷ m) s = ground (arith, snoc-ne-nil l f, insert_at-Above k p f m)

  -- Nothing waits below the least key.
  frames_in-Above :
      (low p : ℤ) (m : List (ℤ × List A)) → Above low m → ¬ (low <ℤ p) → frames_in p m ≡ []
  unfolding frames_in
  frames_in-Above low p [] a h = refl
  frames_in-Above low p ((k, l) ∷ m) a h = ground (arith, frames_in-Above k p m)

  frames_in-insert_Above :
      (low p j : ℤ) (f : A) (m : List (ℤ × List A))
      → Above low m
      → frames_in j (insert_at p f m)
        ≡ (if eqb_ℤ j p then frames_in j m ++ f ∷ [] else frames_in j m)
  unfolding frames_in insert_at
  frames_in-insert_Above low p j f [] a = ground arith
  frames_in-insert_Above low p j f ((k, l) ∷ m) a =
      ground (arith, frames_in-Above k p m, frames_in-insert_Above k p j f m)

  frames_in-insert_at :
      (p j : ℤ) (f : A) (m : List (ℤ × List A))
      → IsSorted m
      → frames_in j (insert_at p f m)
        ≡ (if eqb_ℤ j p then frames_in j m ++ f ∷ [] else frames_in j m)
  unfolding frames_in insert_at
  frames_in-insert_at p j f [] s = ground arith
  frames_in-insert_at p j f ((k, l) ∷ m) s =
      ground (arith, frames_in-Above k p m, frames_in-insert_Above k p j f m)

  -- Insert puts the frame behind those of its own priority, leaves the frames of every other
  -- priority as they are, and keeps the map sorted with no empty list.
  pub insert-frames_at :
      (p : ℤ) (f : A) (q : PriorityQueue A)
      → IsValid q
      → IsValid (insert p f q)
        × ((j : ℤ)
            → frames_at j (insert p f q)
              ≡ (if eqb_ℤ j p then frames_at j q ++ f ∷ [] else frames_at j q))
  unfolding insert
  insert-frames_at p f q v =
      (insert-IsValid p f q.queue_map v, λ j. frames_in-insert_at p j f q.queue_map v)

  -- What a pop has to return: none from the empty queue only, and else the oldest frame of the
  -- least priority `p` at which frames wait, with all other frames left as they were.
  abbrev pub PopsFirst : PriorityQueue A → Option (A × PriorityQueue A) → Type 0
  PopsFirst q none = (j : ℤ) → frames_at j q ≡ []
  PopsFirst q (some (f, q')) =
      IsValid q'
      × ((p : ℤ) × ((j : ℤ)
            → (frames_at j q ≡ (if eqb_ℤ j p then f ∷ frames_at j q' else frames_at j q'))
              × (frames_at j q ≡ (if ltb_ℤ j p then [] else frames_at j q))))

  keep_rest-IsSorted :
      (k : ℤ) (l : List A) (m : List (ℤ × List A)) → Above k m → IsSorted (keep_rest k l m)
  keep_rest-IsSorted k [] m a = Above-IsSorted k m a
    where
      Above-IsSorted : (k : ℤ) (m : List (ℤ × List A)) → Above k m → IsSorted m
      Above-IsSorted k [] a = tt
      Above-IsSorted k ((j, l) ∷ m) a = (a.1, a.2)
  keep_rest-IsSorted k (f ∷ l) m a = ((λ e. cc), a)

  frames_in-keep_rest :
      (k : ℤ) (l : List A) (m : List (ℤ × List A)) (j : ℤ)
      → Above k m
      → frames_in j (keep_rest k l m) ≡ (if eqb_ℤ j k then l else frames_in j m)
  unfolding frames_in
  frames_in-keep_rest k [] m j a = ground (arith, frames_in-Above k j m)
  frames_in-keep_rest k (f ∷ l) m j a = refl

  -- Pop and InternalPop on a queue that Insert and Pop have built, whether or not it is empty.
  pub pop-PopsFirst : (q : PriorityQueue A) → IsValid q → PopsFirst q (pop q)
  unfolding pop pop_at
  pop-PopsFirst q v = pop_at-PopsFirst q.queue_map v
    where
      pop_at-PopsFirst :
          (m : List (ℤ × List A)) → IsSorted m → PopsFirst (record { queue_map = m }) (pop_at m)
      pop_at-PopsFirst [] s = λ j. unfold frames_in in refl
      pop_at-PopsFirst ((k, []) ∷ m) s = absurd (s.0 refl)
      pop_at-PopsFirst ((k, f ∷ l) ∷ m) s = (
        keep_rest-IsSorted k l m s.1,
        (
          k,
          (λ j.
              unfold frames_in in
              (
                ground (arith, frames_in-keep_rest k l m j s.1),
                ground (arith, frames_in-Above k j m),
              )),
        ),
      )
