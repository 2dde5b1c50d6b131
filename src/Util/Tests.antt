-- ===== src/Util/Tests.antt =====
-- A group of two workers: server/util/concurrency.go.
use flit_el.Prelude.{ℕ, ◌+◌, ◌≤◌, ◌≡◌, refl, some, arith}
use flit_el.Util.{
  BoundedWaitGroup, new_bounded_wait_group, add, add_loop, acquire, wg_add, release, finish,
}
use flit_el.Util.Bound.{
  Program, acquires, counts, releases, Reach, here, next, begin, workers-le-max_size,
}

abbrev group : ℕ → BoundedWaitGroup
group k = record { wg = k; sem = k; max_size = 2 }

three_added : add 3 (group 0) ≡ (1, group 2)
unfolding add add_loop acquire
three_added = refl

one_ends : finish (group 2) ≡ some (group 1)
unfolding finish
one_ends = refl

-- Two workers, of which one has begun Done, and a third that comes in before it is counted down.
abbrev crowded : Program
crowded = record { group = record { wg = 2; sem = 2; max_size = 2 }; adding = 1; ending = 1 }

crowded_reached : Reach (begin 2) crowded
unfolding new_bounded_wait_group acquire wg_add release
crowded_reached =
    next
      (next
        (next
          (next
            (next (next here (acquires (begin 2) (record { wg = 0; sem = 1; max_size = 2 }) refl)) (
              counts
                (record {
                  group = record { wg = 0; sem = 1; max_size = 2 };
                  adding = 1;
                  ending = 0;
                })
                0 refl))
            (acquires (record { group = group 1; adding = 0; ending = 0 })
              (record { wg = 1; sem = 2; max_size = 2 }) refl))
          (counts
            (record { group = record { wg = 1; sem = 2; max_size = 2 }; adding = 1; ending = 0 }) 0
            refl))
        (releases (record { group = group 2; adding = 0; ending = 0 })
          (record { wg = 2; sem = 1; max_size = 2 }) refl))
      (acquires
        (record { group = record { wg = 2; sem = 1; max_size = 2 }; adding = 0; ending = 1 })
        (group 2) refl)

workers-le-max_size_example : crowded.group.wg + crowded.adding ≤ 2 + crowded.ending
workers-le-max_size_example = workers-le-max_size 2 crowded (omega arith) crowded_reached
