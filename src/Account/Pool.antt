-- ===== src/Account/Pool.antt =====
-- internal/account: the pool of accounts (pool_core.go, pool_acquire.go, pool_limits.go,
-- pool_waiters.go, health.go). An operation that holds the pool's mutex is one function from the
-- pool to the pool; `now` is the time that it reads. A waiter's channel is a number, and
-- `close(waiter)` puts it on the list `closed`. Counts of requests do not wrap.
pub mod Marks
pub mod Admin
pub mod Wait
pub mod Choice
pub mod Limits
pub mod Waiting
pub mod Channels
pub mod Turns
pub mod Leak
pub mod Blocking
use deep_seek_web_to_api.Prelude.{
  ℕ, zero, suc, ◌+◌, ◌-◌, Bool, true, false, ◌&&◌, ◌||◌, not, Option, none, some, List, [], ◌∷◌,
  ◌++◌, length, ltb, leb, ◌==◌, if◌then◌else◌,
}
use deep_seek_web_to_api.Prelude.Int.{ℤ, pos, ltb_ℤ}
use deep_seek_web_to_api.Prelude.Text.{String, is_empty, str_eq}
use deep_seek_web_to_api.Prelude.Dict.{Dict, lookup, insert, delete, count, total}
use deep_seek_web_to_api.Config.Account.{Account}
use deep_seek_web_to_api.Config.Store.{Store, find_account}
use deep_seek_web_to_api.Account.Health.{Health, is_over}
use deep_seek_web_to_api.Account.Affinity.{Affinity}

pub record Pool : Type 0 where
  pub store : Store
  pub queue : List String
  pub in_use : Dict ℕ
  pub waiters : List ℕ
  pub closed : List ℕ
  pub next_channel : ℕ
  pub health : Dict Health
  pub max_inflight_per_account : ℤ
  pub recommended_concurrency : ℤ
  pub max_queue_size : ℤ
  pub global_max_inflight : ℤ
  pub affinity : Affinity

-- `exclude`, a Go map to bool.
abbrev pub Exclude : Type 0
Exclude = String → Bool

-- pool_waiters.go

unfoldable pub can_queue : Pool → String → Exclude → Bool
can_queue p target exclude =
    let room = ltb_ℤ (pos (length p.waiters)) p.max_queue_size in
    let sized = ltb_ℤ (pos 0) p.max_queue_size in
    if is_empty target
    then sized && room
    else if exclude target
    then false
    else elim (find_account p.store target) [ none ↦ false | some acc ↦ sized && room ]

unfoldable pub notify_waiter : Pool → Pool
notify_waiter p = elim p.waiters [
  | [] ↦ p
  | waiter ∷ rest ↦ record p { waiters = rest; closed = waiter ∷ p.closed }
]

-- The list without the first occurrence of the channel, and whether it was there.
unfoldable pub without_waiter : ℕ → List ℕ → List ℕ × Bool
without_waiter waiter [] = ([], false)
without_waiter waiter (w ∷ ws) =
    let (rest, found) = without_waiter waiter ws in
    if w == waiter then (ws, true) else (w ∷ rest, found)

unfoldable pub remove_waiter : Pool → ℕ → Pool × Bool
unfolding without_waiter
remove_waiter p waiter =
    let (rest, found) = without_waiter waiter p.waiters in (record p { waiters = rest }, found)

unfoldable pub drain_waiters : Pool → Pool
drain_waiters p = record p { waiters = []; closed = p.waiters ++ p.closed }

-- health.go: `accountHealthLocked` drops an entry whose cooldown is over.

unfoldable pub account_health : Pool → ℕ → String → Pool × Option Health
account_health p now id = elim (lookup id p.health) [
  | none ↦ (p, none)
  | some h ↦ if is_over now h then (record p { health = delete id p.health }, none) else (p, some h)
]

-- pool_limits.go

-- The two tests of limits that end `canAcquireIDLocked`.
unfoldable pub has_room : Pool → String → Bool
has_room p id =
    let saturated = not (ltb_ℤ (pos (count id p.in_use)) p.max_inflight_per_account) in
    let full =
      ltb_ℤ (pos 0) p.global_max_inflight
      && not (ltb_ℤ (pos (total p.in_use)) p.global_max_inflight) in
    not saturated && not full

unfoldable pub can_acquire_id : Pool → ℕ → String → Pool × Bool
can_acquire_id p now id = if is_empty id then (p, false) else elim (find_account p.store id) [
  | none ↦ (p, false)
  | some acc ↦
      if acc.disabled
      then (p, false)
      else let (q, blocked) = account_health p now id in
        elim blocked [ some h ↦ (q, false) | none ↦ (q, has_room q id) ]
]

-- pool_acquire.go

-- The queue without the first occurrence of the identifier, if there is one.
unfoldable pub without_first : String → List String → Option (List String)
without_first id [] = none
without_first id (x ∷ xs) =
    let rest = without_first id xs in
    if str_eq x id then some xs else elim rest [ none ↦ none | some ys ↦ some (x ∷ ys) ]

unfoldable pub bump_queue : String → List String → List String
unfolding without_first
bump_queue id q = elim (without_first id q) [ none ↦ q | some rest ↦ rest ++ id ∷ [] ]

-- p.inUse[id]++; p.bumpQueue(id)
unfoldable pub take_slot : Pool → String → Pool
unfolding bump_queue
take_slot p id = record p {
  in_use = insert id (count id p.in_use + 1) p.in_use;
  queue = bump_queue id p.queue;
}

-- The loop of `tryAcquire` over what is left of the queue.
unfoldable pub try_from : Pool → ℕ → Exclude → List String → Pool × Option Account
try_from p now exclude [] = (p, none)
try_from p now exclude (id ∷ ids) =
    let (q, admitted) = if exclude id then (p, false) else can_acquire_id p now id in
    let rest = try_from q now exclude ids in
    if admitted
    then elim (find_account q.store id) [ none ↦ rest | some acc ↦ (take_slot q id, some acc) ]
    else rest

unfoldable pub try_acquire : Pool → ℕ → Exclude → Pool × Option Account
try_acquire p now exclude = try_from p now exclude p.queue

unfoldable pub acquire_target : Pool → ℕ → String → Exclude → Pool × Option Account
acquire_target p now target exclude =
    if exclude target
    then (p, none)
    else let (q, admitted) = can_acquire_id p now target in
      if admitted
      then elim (find_account q.store target) [
        | none ↦ (q, none)
        | some acc ↦ (take_slot q target, some acc)
      ]
      else (q, none)

-- `Acquire`, and `acquireLocked` that it calls.
unfoldable pub acquire : Pool → ℕ → String → Exclude → Pool × Option Account
acquire p now target exclude =
    if is_empty target then try_acquire p now exclude else acquire_target p now target exclude

unfoldable pub acquire_preferred : Pool → ℕ → String → Exclude → Pool × Option Account
acquire_preferred p now preferred exclude =
    if is_empty preferred
    then try_acquire p now exclude
    else let (q, found) = acquire p now preferred exclude in
      elim found [ some acc ↦ (q, some acc) | none ↦ try_acquire q now exclude ]

-- pool_core.go

-- `Release` of an account that holds `count` slots.
unfoldable pub give_back : Pool → String → ℕ → Pool
give_back p id zero = p
give_back p id (suc zero) = notify_waiter (record p { in_use = delete id p.in_use })
give_back p id (suc (suc n)) = notify_waiter (record p { in_use = insert id (suc n) p.in_use })

unfoldable pub release : Pool → String → Pool
release p id = if is_empty id then p else give_back p id (count id p.in_use)

unfoldable pub account_in_use : Pool → String → Bool
account_in_use p id = if is_empty id then false else ltb 0 (count id p.in_use)
