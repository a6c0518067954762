-- ===== src/Migration/Files/Capacity.antt =====
-- internal/migration/files.go: the capacity check, in int64 arithmetic, against plain numbers.
use askio_agent.Base.{
  ℕ, ◌+◌, ◌*◌, ◌/◌, ◌%◌, ◌≤◌, ◌<◌, Bool, false, not, ◌||◌, ◌&&◌, ◌≡◌, ltb, leb, eqb, if◌then◌else◌,
  arith,
}
use Prim.Native.Nat.{◌^◌}
use askio_agent.Migration.Int64.{word, maximum_int64, add64, sub64, mul64, is_negative, less64}

abbrev pub reserve_bytes : ℕ
reserve_bytes = 16 * 1024 * 1024

abbrev pub reserve_percent : ℕ
reserve_percent = 15

-- `blocks` and `block_size` are uint64.
unfoldable pub saturated_file_system_bytes : ℕ → ℕ → ℕ
unfolding mul64
saturated_file_system_bytes blocks block_size =
    if eqb blocks 0 || eqb block_size 0
    then 0
    else if ltb (maximum_int64 / block_size) blocks
    then maximum_int64
    else mul64 blocks block_size

-- For a total that is not negative.
unfoldable pub capacity_reserve : ℕ → ℕ
unfolding add64 mul64 less64
capacity_reserve total =
    let reserve =
      add64 (mul64 (total / 100) reserve_percent) (mul64 (total % 100) reserve_percent / 100) in
    if less64 reserve reserve_bytes then reserve_bytes else reserve

unfoldable pub has_file_system_capacity : ℕ → ℕ → ℕ → Bool
unfolding capacity_reserve is_negative less64 sub64 add64
has_file_system_capacity available total required =
    if is_negative available || (is_negative total || eqb total 0) || is_negative required
    then false
    else if less64 (sub64 maximum_int64 (capacity_reserve total)) required
    then false
    else not (less64 available (add64 required (capacity_reserve total)))

-- The smaller of two numbers.
abbrev pub smaller : ℕ → ℕ → ℕ
smaller a b = if ltb a b then a else b

-- The larger of two numbers.
abbrev pub larger : ℕ → ℕ → ℕ
larger a b = if ltb a b then b else a

product_above :
    (blocks size q r total : ℕ)
    → total ≡ q * size + r
    → r < size
    → q < blocks
    → total < blocks * size
product_above blocks size q r total e p h = grind arith

product_below :
    (blocks size q r total : ℕ) → total ≡ q * size + r → blocks ≤ q → blocks * size ≤ total
product_below blocks size q r total e h = grind arith

-- For uint64 arguments the product saturates at the largest int64, and is never wrapped.
pub saturated_file_system_bytes-smaller :
    (blocks block_size : ℕ)
    → blocks < word
    → block_size < word
    → saturated_file_system_bytes blocks block_size ≡ smaller (blocks * block_size) maximum_int64
unfolding saturated_file_system_bytes mul64
saturated_file_system_bytes-smaller blocks block_size p q = ground (
  arith,
  product_above blocks block_size (maximum_int64 / block_size) (maximum_int64 % block_size)
      maximum_int64,
  product_below blocks block_size (maximum_int64 / block_size) (maximum_int64 % block_size)
      maximum_int64,
)

reserve-exact :
    (total : ℕ) → total < 2 ^ 63 → capacity_reserve total ≡ larger (total * 15 / 100) reserve_bytes
unfolding capacity_reserve add64 mul64 less64
reserve-exact total h = ground arith

-- For int64 arguments the check holds exactly when the available bytes, as plain numbers, are at
-- least the required ones and a reserve of fifteen per cent of the total, sixteen MiB at least, with
-- a positive total and no negative argument: no step of it overflows.
pub has_file_system_capacity-exact :
    (available total required : ℕ)
    → available < word
    → total < word
    → required < word
    → has_file_system_capacity available total required ≡ (
        ltb available (2 ^ 63)
        && (ltb 0 total && ltb total (2 ^ 63))
        && ltb required (2 ^ 63)
        && leb (required + larger (total * 15 / 100) reserve_bytes) available)
unfolding has_file_system_capacity is_negative less64 sub64 add64
has_file_system_capacity-exact available total required a t r = ground (arith, reserve-exact total)
