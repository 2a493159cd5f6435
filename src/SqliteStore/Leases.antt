-- ===== src/SqliteStore/Leases.antt =====
-- The foreground lease of `SqliteStore` (src/adapters/sqlite/store.rs), on a table of at most one row. Each
-- call takes the clock's reading, and gives the row that its one statement leaves. A statement that the
-- database fails changes nothing and is left out. Times are milliseconds, below 2 ^ 63.
use hekate.Prelude.{
  ℕ, ◌+◌, ◌-◌, ◌^◌, ◌≡◌, ◌<◌, refl, Bool, true, false, ◌&&◌, not, Option, none, some, List, [], ◌∷◌,
  ltb, leb, all, if◌then◌else◌, ◌==◌, ◌!=◌, ℕ_eq, list_eq, arith,
}
use hekate.Prelude.Text.{Text}

pub record Lease : Type 0 where
  pub owner_id : Text
  pub expires_at_ms : ℕ

abbrev i64_max : ℕ
i64_max = 2 ^ 63 - 1

abbrev at_most_i64 : ℕ → ℕ
at_most_i64 n = if ltb i64_max n then i64_max else n

-- `now.saturating_add(ttl.as_millis().min(i64::MAX as u128) as i64)`
unfoldable pub lease_deadline : ℕ → ℕ → ℕ
lease_deadline now ttl = at_most_i64 (now + at_most_i64 ttl)

-- The insertion, or on a conflict the update of an expired row: one row is affected, or none.
unfoldable pub acquire_foreground_lease : Text → ℕ → ℕ → Option Lease → Bool × Option Lease
acquire_foreground_lease owner ttl now none =
    (true, some (record { owner_id = owner; expires_at_ms = lease_deadline now ttl }))
acquire_foreground_lease owner ttl now (some lease) =
    if leb lease.expires_at_ms now
    then (true, some (record { owner_id = owner; expires_at_ms = lease_deadline now ttl }))
    else (false, some lease)

unfoldable pub renew_foreground_lease : Text → ℕ → ℕ → Option Lease → Bool × Option Lease
renew_foreground_lease owner ttl now none = (false, none)
renew_foreground_lease owner ttl now (some lease) =
    if lease.owner_id == owner && ltb now lease.expires_at_ms
    then (true, some (record lease { expires_at_ms = lease_deadline now ttl }))
    else (false, some lease)

unfoldable pub release_foreground_lease : Text → Option Lease → Option Lease
release_foreground_lease owner none = none
release_foreground_lease owner (some lease) = if lease.owner_id == owner then none else some lease

unfoldable pub has_active_foreground_lease : ℕ → Option Lease → Bool
has_active_foreground_lease now none = false
has_active_foreground_lease now (some lease) = ltb now lease.expires_at_ms

-- A call with its owner and the time that it reads.
pub data Call : Type 0 where
  acquires renews : Text → ℕ → ℕ → Call
  releases : Text → ℕ → Call

-- What the call answers, and the row after it. A release answers nothing, here `false`.
abbrev pub perform : Call → Option Lease → Bool × Option Lease
perform (acquires owner ttl now) row = acquire_foreground_lease owner ttl now row
perform (renews owner ttl now) row = renew_foreground_lease owner ttl now row
perform (releases owner now) row = (false, release_foreground_lease owner row)

-- The answers of a sequence of calls, and the row at the end.
unfoldable pub perform_all : List Call → Option Lease → List Bool × Option Lease
perform_all [] row = ([], row)
perform_all (call ∷ calls) row =
    let (granted, next) = perform call row in
    let (answers, last) = perform_all calls next in (granted ∷ answers, last)

-- The call is by someone else, before this time.
abbrev pub is_foreign : Lease → Call → Bool
is_foreign lease (acquires owner ttl now) = lease.owner_id != owner && ltb now lease.expires_at_ms
is_foreign lease (renews owner ttl now) = lease.owner_id != owner
is_foreign lease (releases owner now) = lease.owner_id != owner

-- No answer is a grant.
unfoldable pub none_granted : List Bool → Bool
none_granted [] = true
none_granted (granted ∷ answers) = not granted && none_granted answers

foreign_call :
    (lease : Lease) (call : Call)
    → is_foreign lease call ≡ true
    → perform call (some lease) ≡ (false, some lease)
unfolding acquire_foreground_lease renew_foreground_lease release_foreground_lease
foreign_call lease (acquires owner ttl now) h = ground (arith, h)
foreign_call lease (renews owner ttl now) h = ground (arith, h)
foreign_call lease (releases owner now) h = ground (arith, h)

-- While a lease has not expired, others get nothing: whatever calls other owners make, their acquisitions
-- before the deadline, none is granted, and the row stays as it is.
pub lease_is_exclusive :
    (lease : Lease) (calls : List Call)
    → all (is_foreign lease) calls ≡ true
    → (none_granted (perform_all calls (some lease)).0 ≡ true)
      × ((perform_all calls (some lease)).1 ≡ some lease)
unfolding perform_all none_granted all
lease_is_exclusive lease [] h = (refl, refl)
lease_is_exclusive lease (call ∷ calls) h =
    ground (arith, foreign_call lease call, lease_is_exclusive lease calls)

-- Whoever acquires at or after the deadline of the lease that is held, or when there is none, is granted it
-- with the time to live asked for, as far as 63 bits hold it, and holds it until then.
pub expired_lease_is_acquired :
    (row : Option Lease) (owner : Text) (ttl now later : ℕ)
    → has_active_foreground_lease now row ≡ false
    → now + ttl < 2 ^ 63
    → later < now + ttl
    → let (granted, next) = acquire_foreground_lease owner ttl now row in
      (granted ≡ true)
      × (next ≡ some (record { owner_id = owner; expires_at_ms = now + ttl }))
      × (has_active_foreground_lease later next ≡ true)
unfolding acquire_foreground_lease has_active_foreground_lease lease_deadline
expired_lease_is_acquired none owner ttl now later h bound before = ground arith
expired_lease_is_acquired (some lease) owner ttl now later h bound before = ground arith
