-- ===== src/Timestamp/Comparator.antt =====
-- src/storage/timestamp.rs: `U64Timestamp` and `U64Comparator`, the order of keys that carry a
-- timestamp in their last eight bytes.
use Prim.Native.Nat.{compare, Ordering}
use maestro_symphony.Prelude.{
  ℕ, zero, suc, ◌+◌, ◌-◌, ◌*◌, ◌/◌, ◌%◌, ◌^◌, ◌<◌, ◌≡◌, refl, ap, arith, [], ◌∷◌, ◌++◌, Bool, true,
  false, Option, none, some, Bytes, length, length-append, take, drop, ltb, eqb, if◌then◌else◌,
}
use native.Mathlib.Nat.{pow-suc}

abbrev pub size : ℕ
size = 8

-- `to_le_bytes` and `from_le_bytes`
unfoldable pub to_le_bytes : ℕ → ℕ → Bytes
to_le_bytes zero v = []
to_le_bytes (suc n) v = (v % 256) ∷ to_le_bytes n (v / 256)

unfoldable pub from_le_bytes : Bytes → ℕ
from_le_bytes [] = 0
from_le_bytes (b ∷ bs) = b + 256 * from_le_bytes bs

-- `Ord` of byte slices.
unfoldable pub compare_slices : Bytes → Bytes → Ordering
compare_slices [] [] = Ordering.eq
compare_slices [] (y ∷ ys) = Ordering.lt
compare_slices (x ∷ xs) [] = Ordering.gt
compare_slices (x ∷ xs) (y ∷ ys) =
    if ltb x y then Ordering.lt else if eqb x y then compare_slices xs ys else Ordering.gt

abbrev pub reverse_ordering : Ordering → Ordering
reverse_ordering Ordering.lt = Ordering.gt
reverse_ordering Ordering.eq = Ordering.eq
reverse_ordering Ordering.gt = Ordering.lt

-- `none`: the slice is shorter than a timestamp, and its index underflows.
unfoldable pub extract_timestamp_from_user_key : Bytes → Option Bytes
extract_timestamp_from_user_key key =
    if ltb (length key) size then none else some (drop (length key - size) key)

unfoldable pub strip_timestamp_from_user_key : Bytes → Option Bytes
strip_timestamp_from_user_key key =
    if ltb (length key) size then none else some (take (length key - size) key)

-- `none`: `U64Timestamp::from` on a slice of another length panics.
unfoldable pub compare_ts : Bytes → Bytes → Option Ordering
unfolding from_le_bytes
compare_ts bz1 bz2 =
    if eqb (length bz1) size
    then if eqb (length bz2) size
      then some (compare (from_le_bytes bz1) (from_le_bytes bz2))
      else none
    else none

abbrev then_some : {A B : Type 0} → Option A → (A → Option B) → Option B
then_some none f = none
then_some (some a) f = f a

abbrev strip_if : Bool → Bytes → Option Bytes
strip_if true a = strip_timestamp_from_user_key a
strip_if false a = some a

unfoldable pub compare_without_ts : Bytes → Bool → Bytes → Bool → Option Ordering
compare_without_ts a a_has_ts b b_has_ts =
    then_some (strip_if a_has_ts a)
      (λ a'. then_some (strip_if b_has_ts b) (λ b'. some (compare_slices a' b')))

abbrev newer_first : Bytes → Bytes → Ordering → Option Ordering
newer_first a b Ordering.lt = some Ordering.lt
newer_first a b Ordering.gt = some Ordering.gt
newer_first a b Ordering.eq = then_some (extract_timestamp_from_user_key a) (λ ts1.
    then_some (extract_timestamp_from_user_key b)
      (λ ts2. then_some (compare_ts ts1 ts2) (λ o. some (reverse_ordering o))))

-- `U64Comparator::compare`
unfoldable pub compare_keys : Bytes → Bytes → Option Ordering
unfolding compare_without_ts
compare_keys a b = then_some (compare_without_ts a true b true) (newer_first a b)

length-to_le_bytes : (n v : ℕ) → length (to_le_bytes n v) ≡ n
unfolding to_le_bytes
length-to_le_bytes zero v = refl
length-to_le_bytes (suc n) v = ap suc (length-to_le_bytes n (v / 256))

from_le_bytes-to_le_bytes : (n v : ℕ) → v < 256 ^ n → from_le_bytes (to_le_bytes n v) ≡ v
unfolding to_le_bytes from_le_bytes
from_le_bytes-to_le_bytes zero v h = omega arith
from_le_bytes-to_le_bytes (suc n) v h =
    omega (arith, from_le_bytes-to_le_bytes n (v / 256) (digits (rw pow-suc at h)))
  where
    digits : v < 256 ^ n * 256 → v / 256 < 256 ^ n
    digits k = omega arith

take-append : (k t : Bytes) → take (length k) (k ++ t) ≡ k
take-append [] t = refl
take-append (b ∷ k) t = ap (λ x. b ∷ x) (take-append k t)

drop-append : (k t : Bytes) → drop (length k) (k ++ t) ≡ t
drop-append [] t = refl
drop-append (b ∷ k) t = drop-append k t

not_short : (n : ℕ) → ltb (n + size) size ≡ false
not_short n = ground arith

add-sub_size : (n : ℕ) → n + size - size ≡ n
add-sub_size n = omega arith

strip-append : (k t : Bytes) → length t ≡ size → strip_timestamp_from_user_key (k ++ t) ≡ some k
unfolding strip_timestamp_from_user_key
strip-append k t h =
    rw (length-append k t, h, not_short (length k), add-sub_size (length k), take-append k t)

extract-append : (k t : Bytes) → length t ≡ size → extract_timestamp_from_user_key (k ++ t) ≡ some t
unfolding extract_timestamp_from_user_key
extract-append k t h =
    rw (length-append k t, h, not_short (length k), add-sub_size (length k), drop-append k t)

compare_ts-to_le_bytes :
    (v w : ℕ)
    → v < 2 ^ 64
    → w < 2 ^ 64
    → compare_ts (to_le_bytes size v) (to_le_bytes size w) ≡ some (compare v w)
unfolding compare_ts
compare_ts-to_le_bytes v w hv hw = rw (
  length-to_le_bytes size v,
  length-to_le_bytes size w,
  from_le_bytes-to_le_bytes size v hv,
  from_le_bytes-to_le_bytes size w hw,
)

abbrev pub key_then_newer : Ordering → ℕ → ℕ → Ordering
key_then_newer Ordering.lt v w = Ordering.lt
key_then_newer Ordering.gt v w = Ordering.gt
key_then_newer Ordering.eq v w = compare w v

reverse_ordering-compare : (v w : ℕ) → reverse_ordering (compare v w) ≡ compare w v
reverse_ordering-compare v w = ground arith

newer_first_lem :
    (k j : Bytes) (v w : ℕ) (o : Ordering)
    → v < 2 ^ 64
    → w < 2 ^ 64
    → newer_first (k ++ to_le_bytes size v) (j ++ to_le_bytes size w) o
      ≡ some (key_then_newer o v w)
newer_first_lem k j v w Ordering.lt hv hw = refl
newer_first_lem k j v w Ordering.gt hv hw = refl
newer_first_lem k j v w Ordering.eq hv hw = rw (
  extract-append k (to_le_bytes size v) (length-to_le_bytes size v),
  extract-append j (to_le_bytes size w) (length-to_le_bytes size w),
  compare_ts-to_le_bytes v w hv hw,
  reverse_ordering-compare v w,
)

-- Two stored keys compare by their keys, and for one key the greater timestamp comes first.
pub compare_keys-append :
    (k j : Bytes) (v w : ℕ)
    → v < 2 ^ 64
    → w < 2 ^ 64
    → compare_keys (k ++ to_le_bytes size v) (j ++ to_le_bytes size w)
      ≡ some (key_then_newer (compare_slices k j) v w)
unfolding compare_keys
compare_keys-append k j v w hv hw =
    rw
      (
        strip-append k (to_le_bytes size v) (length-to_le_bytes size v),
        strip-append j (to_le_bytes size w) (length-to_le_bytes size w),
      )
      (newer_first_lem k j v w (compare_slices k j) hv hw)
