-- ===== src/Safecast.antt =====
-- safecast/safecast.go: conversions of signed numbers. The values are those of the Go types; the
-- wrap of a conversion to `w` bits is written out as `% 2 ^ w`.
use dnsplane.Base.{ℕ, ◌%◌, ◌^◌, ◌<◌, ◌≡◌, refl, arith, ltb, ◌==◌, min, if◌then◌else◌}
use dnsplane.Base.Int.{ℤ, pos, negsuc}

-- math.MaxUint32
abbrev pub max_uint32 : ℕ
max_uint32 = 4294967295

-- DurationToUint64 and NonNegativeInt64ToUint64
unfoldable pub int64_to_uint64 : ℤ → ℕ
int64_to_uint64 (negsuc n) = 0
int64_to_uint64 (pos n) = if n == 0 then 0 else n % 2 ^ 64

-- NonNegativeIntToUint64
unfoldable pub int_to_uint64 : ℤ → ℕ
int_to_uint64 (negsuc n) = 0
int_to_uint64 (pos n) = n % 2 ^ 64

-- IntToUint32Clamp and UnixSecondsToDNSUint32
unfoldable pub int_to_uint32_clamp : ℤ → ℕ
int_to_uint32_clamp (negsuc n) = 0
int_to_uint32_clamp (pos n) =
    if n == 0 then 0 else if ltb max_uint32 n then max_uint32 else n % 2 ^ 32

-- The number, 0 in place of a negative one.
abbrev pub to_nat : ℤ → ℕ
to_nat (pos n) = n
to_nat (negsuc n) = 0

-- A signed number becomes itself, cut to what 32 bits hold, and 0 if it is negative.
pub int_to_uint32_clamp_lem : (v : ℤ) → int_to_uint32_clamp v ≡ min (to_nat v) max_uint32
unfolding int_to_uint32_clamp
int_to_uint32_clamp_lem (negsuc n) = refl
int_to_uint32_clamp_lem (pos n) = ground arith

-- A signed number below 2 ^ 63 becomes itself, without a wrap, and 0 if it is negative; the two
-- conversions agree.
pub int64_to_uint64_lem :
    (v : ℤ) → to_nat v < 2 ^ 63 → (int64_to_uint64 v ≡ to_nat v) × (int_to_uint64 v ≡ to_nat v)
unfolding int64_to_uint64 int_to_uint64
int64_to_uint64_lem (negsuc n) h = (refl, refl)
int64_to_uint64_lem (pos n) h = ground arith
