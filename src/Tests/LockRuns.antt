-- ===== src/Tests/LockRuns.antt =====
-- The threads of ThreadRuns: lock 7 is free, and lock 8 is held by thread 0, which runs.
use operating_system_pl_nt.Prelude.{
  ◌≡◌, ◌≢◌, refl, none, some, [], ◌∷◌, ◌==◌, if◌then◌else◌, ok, panic, arith, inr,
}
use operating_system_pl_nt.Thread.{Kernel}
use operating_system_pl_nt.Thread.Consistent.{IsConsistent}
use operating_system_pl_nt.Lock.{lock_release}
use operating_system_pl_nt.Lock.Exclusion.{Released, lock_release-Released}
use operating_system_pl_nt.Tests.ThreadRuns.{four}

abbrev locked : Kernel
locked = record four {
  sema = λ s. record { value = if s == 7 then 1 else 0; waiters = if s == 5 then 3 ∷ [] else [] };
  holder = λ l. if l == 8 then some 0 else none;
}

locked-IsConsistent : IsConsistent locked
locked-IsConsistent = record {
  filed = record {
    queue = λ t. ground arith;
    wait = λ s t. ground arith;
    idle_lives = refl;
    idle_stays = refl;
    idle_outside = refl;
  };
  runs = refl;
  only = λ t h. ground arith;
}

lock_release-Released_example :
    (locked.holder 8 ≡ some locked.current
      → (k' : Kernel) × (lock_release 8 locked ≡ ok k') × IsConsistent k' × Released 8 locked k')
    × (locked.holder 8 ≢ some locked.current → lock_release 8 locked ≡ panic)
lock_release-Released_example =
    lock_release-Released locked 8 locked-IsConsistent (inr (refl, (0, refl)))
