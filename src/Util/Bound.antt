-- ===== src/Util/Bound.antt =====
-- The bound on the workers: server/util/concurrency.go.
use flit_el.Prelude.{ℕ, suc, ◌+◌, ◌≤◌, ◌<◌, ◌≡◌, refl, some, arith}
use flit_el.Util.{BoundedWaitGroup, new_bounded_wait_group, acquire, wg_add, release, wg_done}

-- A group and the goroutines that use it: `adding` counts those between the two operations of a round
-- in Add, and `ending` those between the two operations of Done.
pub record Program : Type 0 where
  pub group : BoundedWaitGroup
  pub adding : ℕ
  pub ending : ℕ

-- A round of Add, and Done, each in its two operations, which other goroutines may come between.
pub data Step : Program → Program → Type 0 where
  acquires :
      (p : Program) (b : BoundedWaitGroup)
      → acquire p.group ≡ some b
      → Step p (record p { group = b; adding = p.adding + 1 })
  counts :
      (p : Program) (k : ℕ)
      → p.adding ≡ suc k
      → Step p (record p { group = wg_add 1 p.group; adding = k })
  releases :
      (p : Program) (b : BoundedWaitGroup)
      → release p.group ≡ some b
      → Step p (record p { group = b; ending = p.ending + 1 })
  counts_down :
      (p : Program) (k : ℕ) (b : BoundedWaitGroup)
      → p.ending ≡ suc k
      → wg_done p.group ≡ some b
      → Step p (record p { group = b; ending = k })

pub data Reach (p : Program) : Program → Type 0 where
  here : Reach p p
  next : {t u : Program} → Reach p t → Step t u → Reach p u

abbrev pub begin : ℕ → Program
begin max_size = record { group = new_bounded_wait_group max_size; adding = 0; ending = 0 }

-- The channel holds a value for each worker that is counted and does not end, and for each that is
-- about to be counted, and no more than fit.
pub record IsBounded (max_size : ℕ) (p : Program) : Type 0 where
  pub limit : p.group.max_size ≡ max_size
  pub counted : p.group.wg + p.adding ≡ p.group.sem + p.ending
  pub within : p.group.sem ≤ p.group.max_size

Step-IsBounded :
    (max_size : ℕ) {p q : Program}
    → 0 < max_size
    → Step p q
    → IsBounded max_size p
    → IsBounded max_size q
unfolding acquire wg_add release wg_done
Step-IsBounded max_size l (acquires p b e) v = record {
  limit = ground (arith, v.limit, e);
  counted = ground (arith, v.counted, e);
  within = ground (arith, v.within, e);
}
Step-IsBounded max_size l (counts p k e) v = record {
  limit = v.limit;
  counted = omega (arith, v.counted, e);
  within = v.within;
}
Step-IsBounded max_size l (releases p b e) v = record {
  limit = ground (arith, v.limit, e);
  counted = ground (arith, v.counted, v.limit, l, e);
  within = ground (arith, v.within, e);
}
Step-IsBounded max_size l (counts_down p k b e f) v = record {
  limit = ground (arith, v.limit, f);
  counted = ground (arith, v.counted, e, f);
  within = ground (arith, v.within, f);
}

Reach-IsBounded :
    (max_size : ℕ) {p q : Program}
    → 0 < max_size
    → Reach p q
    → IsBounded max_size p
    → IsBounded max_size q
Reach-IsBounded max_size l here v = v
Reach-IsBounded max_size l (next r s) v =
    Step-IsBounded max_size l s (Reach-IsBounded max_size l r v)

-- However the operations of Add and Done of a group with a limit come between each other, the workers
-- that the WaitGroup counts, and those about to be counted, are no more than the limit, if those that
-- have begun Done are left out.
pub workers-le-max_size :
    (max_size : ℕ) (p : Program)
    → 0 < max_size
    → Reach (begin max_size) p
    → p.group.wg + p.adding ≤ max_size + p.ending
unfolding new_bounded_wait_group
workers-le-max_size max_size p l r =
    let v =
      Reach-IsBounded max_size l r
        (record { limit = refl; counted = refl; within = omega arith }) in
    omega (arith, v.limit, v.counted, v.within)
