-- ===== src/Examples/Leases.antt =====
-- A lease of ten seconds, other owners that want it, and its end (src/adapters/sqlite/store.rs).
use hekate.Examples.World.{executable}
use hekate.Prelude.{arith, ◌≡◌, refl, true, some, List, [], ◌∷◌}
use hekate.Prelude.Text.{codes}
use hekate.SqliteStore.Leases.{
  Call, Lease, acquire_foreground_lease, acquires, expired_lease_is_acquired,
  has_active_foreground_lease, lease_is_exclusive, none_granted, perform_all, releases, renews,
}

abbrev lease : Lease
lease = record { owner_id = codes "a"; expires_at_ms = 10000 }

abbrev calls : List Call
calls =
    acquires (codes "b") 5000 2000
    ∷ releases (codes "b") 2500
    ∷ renews (codes "b") 5000 3000
    ∷ acquires (codes "c") 5000 9999
    ∷ []

lease_is_exclusive_example :
    (none_granted (perform_all calls (some lease)).0 ≡ true)
    × ((perform_all calls (some lease)).1 ≡ some lease)
unfolding executable
lease_is_exclusive_example = lease_is_exclusive lease calls refl

expired_lease_is_acquired_example :
    ((acquire_foreground_lease (codes "b") 5000 10000 (some lease)).0 ≡ true)
    × ((acquire_foreground_lease (codes "b") 5000 10000 (some lease)).1
        ≡ some (record { owner_id = codes "b"; expires_at_ms = 15000 }))
    × (has_active_foreground_lease 12000
          (acquire_foreground_lease (codes "b") 5000 10000 (some lease)).1
        ≡ true)
unfolding executable
expired_lease_is_acquired_example =
    expired_lease_is_acquired (some lease) (codes "b") 5000 10000 12000 refl (omega arith)
      (omega arith)
