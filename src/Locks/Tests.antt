-- ===== src/Locks/Tests.antt =====
-- The theorems about locks at a machine with two locks, of which processor 0 takes one, and the sleep
-- locks at one lock.
use os_11740_assignment.Base.{◌≡◌, refl, arith, true, false, [], ◌∷◌}
use os_11740_assignment.Base.Run.{ok, waits, ◌>>◌}
use os_11740_assignment.Locks.{Machine, fresh_lock, pushcli, popcli, holding, acquire, release}
use os_11740_assignment.Locks.Outcomes.{holds}
use os_11740_assignment.Locks.Guard.{Guards, Guards-fresh, Reaches, start, acquires, Reaches-off}
use os_11740_assignment.Locks.Sleep.{acquiresleep, releasesleep, holdingsleep}

abbrev idle : Machine
idle = record {
  cpu = λ c. record { ncli = 0; intena = false; interrupts = true };
  lock = λ l. fresh_lock;
  sleeplock = λ a. record { locked = false; lk = 1; pid = 0 };
  woken = [];
}

idle-Guards : Guards 2 idle
idle-Guards = Guards-fresh 2 idle (λ l. refl) (λ c. refl)

-- Processor 0 has taken lock 1.
took : (t : Machine) × (acquire 0 1 idle ≡ ok tt t) × (holds 0 (t.lock 1) ≡ true)
unfolding acquire holding pushcli popcli
took = (_, refl, refl)

Reaches-off_example :
    ((took.0.cpu 0).interrupts ≡ false)
    × ((u : Machine) × (release 0 1 took.0 ≡ ok tt u) × Reaches 2 idle u)
Reaches-off_example =
    Reaches-off 2 idle-Guards (acquires 0 1 start (omega arith) took.1) 0 1 (omega arith) took.2

-- A second process finds the sleep lock held, the first one holds it, and gives it back.
second_waits : (acquiresleep 0 7 5 >> acquiresleep 1 8 5) idle ≡ waits
unfolding acquiresleep acquire release holding pushcli popcli
second_waits = refl

first_holds : (t : Machine) × ((acquiresleep 0 7 5 >> holdingsleep 0 7 5) idle ≡ ok true t)
unfolding acquiresleep holdingsleep acquire release holding pushcli popcli
first_holds = (_, refl)

given_back :
    (t : Machine) × ((acquiresleep 0 7 5 >> (releasesleep 0 7 5 >> acquiresleep 1 8 5)) idle
      ≡ ok tt t)
    × (t.woken ≡ 5 ∷ [])
unfolding acquiresleep releasesleep acquire release holding pushcli popcli
given_back = (_, refl, refl)
