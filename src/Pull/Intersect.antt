-- ===== src/Pull/Intersect.antt =====
-- src/sync/stages/index/indexers/core/hash_by_height.rs: the points of the indexed chain that the node
-- is asked about. A `while` loop takes fuel.
use maestro_symphony.Prelude.{
  ℕ, zero, suc, ◌+◌, ◌-◌, ◌*◌, ◌^◌, ◌%◌, ◌≡◌, ◌≤◌, ◌<◌, refl, ap, arith, List, [], ◌∷◌, ◌++◌, map,
  All, Option, none, some, Bool-cases, inl, inr, Bytes, leb, eqb, if◌then◌else◌, Result, ok, ◌>>=◌,
}
use maestro_symphony.Codec.{ok_or}
use maestro_symphony.Encdec.Range.{KeyRange}
use maestro_symphony.Table.{encode_range, decode_entry}
use maestro_symphony.Core.{Point, Error, panic, lift_decoding, hash_by_height_kv}
use maestro_symphony.Store.{Db, reader_get}

abbrev pub next_step : ℕ → ℕ → ℕ
next_step len step = if leb 10 len then (step * 2) % (2 ^ 64) else step

abbrev pub also : ℕ → Option (List ℕ) → Option (List ℕ)
also index none = none
also index (some indexes) = some (index ∷ indexes)

-- The loop over `index`, with `len` indexes before it; `none` means that the fuel ran out.
unfoldable pub indexes_from : ℕ → ℕ → ℕ → ℕ → Option (List ℕ)
indexes_from zero len step index = none
indexes_from (suc fuel) len step index =
    let step' = next_step (len + 1) step in
    let rest = also index (indexes_from fuel (len + 1) step' (index - step')) in
    if eqb (index - step') 0 then some (index ∷ []) else rest

module _ (db : Db) (s : db.Store) (read_ts : ℕ) where
  -- The hash of an indexed height; one that is missing is a panic.
  unfoldable pub points_at : List ℕ → Result Error (List Point)
  points_at [] = ok []
  points_at (height ∷ heights) = do
    found ← reader_get db hash_by_height_kv s read_ts height
    hash ← ok_or found (panic "missing hash by height kv")
    points ← points_at heights
    ok (record { height = height; hash = hash } ∷ points)

  -- The first entry of a reverse iteration over a range is what RocksDB answers.
  abbrev pub LastEntry : Type 0
  LastEntry = KeyRange → Option (Bytes × Bytes)

  abbrev pub height_of_entry : Option (Bytes × Bytes) → Result Error (Option ℕ)
  height_of_entry none = ok none
  height_of_entry (some entry) = do
    (height, hash) ← lift_decoding (decode_entry hash_by_height_kv entry)
    ok (some height)

  abbrev pub points_from : Option ℕ → Result Error (List Point)
  points_from none = ok []
  points_from (some tip_height) = do
    indexes ← ok_or (indexes_from (tip_height + 1) 0 1 tip_height) (panic "out of fuel")
    points_at indexes

  unfoldable pub intersect_options : LastEntry → Bytes → Result Error (List Point)
  intersect_options last_entry genesis_hash = do
    last_entry_height ← height_of_entry (last_entry (encode_range hash_by_height_kv none none))
    out ← points_from last_entry_height
    ok (out ++ (record { height = 0; hash = genesis_hash } ∷ []))

-- Strictly below the bound, and strictly falling.
abbrev pub Falls : ℕ → List ℕ → Type 0
Falls bound [] = Unit
Falls bound (x ∷ xs) = (x < bound) × (0 < x) × Falls x xs

-- The loop ends: as many rounds as the height, and no index twice.
indexes_from-Falls :
    (fuel len step index tip : ℕ)
    → index < fuel
    → 0 < step
    → step + index ≤ tip + 1
    → tip < 2 ^ 63
    → (rest : List ℕ) × (indexes_from fuel len step index ≡ some (index ∷ rest)) × Falls index rest
unfolding indexes_from
indexes_from-Falls zero len step index tip f p b t = absurd (omega (arith, f))
indexes_from-Falls (suc fuel) len step index tip f p b t =
    elim (Bool-cases (eqb (index - next_step (len + 1) step) 0)) [
      | inl e ↦ ([], rw e refl, tt)
      | inr e ↦
          let (rest, q, h) =
            indexes_from-Falls fuel (len + 1) (next_step (len + 1) step)
              (index - next_step (len + 1) step) tip (ground arith) (ground arith) (ground arith)
              t in
          (
            (index - next_step (len + 1) step) ∷ rest,
            rw (e, q) refl,
            (ground arith, ground arith, h),
          )
    ]

abbrev pub heights_of : List Point → List ℕ
heights_of points = map (λ p. p.height) points

module _ (db : Db) (s : db.Store) (read_ts : ℕ) where
  -- The store has a hash of the height.
  abbrev pub IsIndexed : ℕ → Type 0
  IsIndexed height =
      (hash : Bytes) × (reader_get db hash_by_height_kv s read_ts height ≡ ok (some hash))

  abbrev pub IsStoredPoint : Point → Type 0
  IsStoredPoint p = reader_get db hash_by_height_kv s read_ts p.height ≡ ok (some p.hash)

  points_at-total :
      (heights : List ℕ)
      → All IsIndexed heights
      → (points : List Point) × (points_at db s read_ts heights ≡ ok points)
        × (heights_of points ≡ heights)
        × All IsStoredPoint points
  unfolding points_at
  points_at-total [] h = ([], refl, refl, tt)
  points_at-total (height ∷ heights) h =
      let (hash, e) = h.0 in
      let (points, a, b, c) = points_at-total heights h.1 in
      (
        record { height = height; hash = hash } ∷ points,
        rw (e, a) refl,
        ap (λ xs. height ∷ xs) b,
        (e, c),
      )

  Falls-All :
      (P : ℕ → Type 0) (bound : ℕ) (xs : List ℕ)
      → ((n : ℕ) → 0 < n → n < bound → P n)
      → Falls bound xs
      → All P xs
  Falls-All P bound [] k h = tt
  Falls-All P bound (x ∷ xs) k h =
      (k x h.1 h.0, Falls-All P x xs (λ n a b. k n a (omega (arith, h.0))) h.2)

-- Where the last entry of the table is of a height above zero and below 2 ^ 63, and every height from
-- one to it is indexed, the search ends with an answer: points that the store has, the first at the
-- last height and the others at falling heights above zero, and then the genesis block.
pub intersect_options-total :
    (db : Db) (s : db.Store) (read_ts : ℕ) (last_entry : LastEntry db s read_ts)
    (genesis_hash : Bytes) (entry : Bytes × Bytes) (tip : ℕ) (hash : Bytes)
    → last_entry (encode_range hash_by_height_kv none none) ≡ some entry
    → decode_entry hash_by_height_kv entry ≡ ok (tip, hash)
    → 0 < tip
    → tip < 2 ^ 63
    → ((n : ℕ) → 0 < n → n ≤ tip → IsIndexed db s read_ts n)
    → (points : List Point) × (heights : List ℕ) × (intersect_options db s read_ts last_entry
          genesis_hash
        ≡ ok (points ++ (record { height = 0; hash = genesis_hash } ∷ [])))
      × (heights_of points ≡ tip ∷ heights)
      × Falls tip heights
      × All (IsStoredPoint db s read_ts) points
unfolding intersect_options
intersect_options-total db s read_ts last_entry genesis_hash entry tip hash e d p t k =
    let (heights, q, f) =
      indexes_from-Falls (tip + 1) 0 1 tip tip (omega arith) (omega arith) (omega arith) t in
    let (points, a, b, c) = points_at-total db s read_ts (tip ∷ heights) (
      k tip p (omega arith),
      Falls-All db s read_ts (IsIndexed db s read_ts) tip heights (λ n x y. k n x (omega arith)) f,
    ) in
    (points, heights, rw (e, d, q, a) refl, b, f, c)
