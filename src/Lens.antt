-- ===== src/Lens.antt =====
-- The lenses: their data and what is common to the five kinds: src/lens.c and the structures of
-- src/lens_counter.c, src/lens_gauge.c, src/lens_dist.c, src/lens_histo.c, src/lens_quantile.c and
-- src/optics.h. A pointer to a lens is a number, 0 for NULL.
pub mod Counter
pub mod Gauge
pub mod Histo
pub mod Dist
pub mod Quantile
use optics_light.Floating.{Floating}
use optics_light.Prelude.{
  ℕ, ◌+◌, ◌-◌, ◌*◌, ◌%◌, ◌^◌, min, Option, none, some, List, [], ◌∷◌, Bool, true, false, ltb, leb,
  ◌==◌, if◌then◌else◌, length, take, replicate,
}

abbrev pub optics_name_max_len : ℕ
optics_name_max_len = 256

abbrev pub optics_dist_samples : ℕ
optics_dist_samples = 200

abbrev pub optics_histo_buckets_max : ℕ
optics_histo_buckets_max = 8

-- `enum optics_lens_type`
pub data LensType : Type 0 where
  counter_type gauge_type dist_type histo_type quantile_type : LensType

-- `enum optics_ret`
pub data OpticsRet : Type 0 where
  ok err busy stop : OpticsRet

-- An array of two cells, one for each epoch.
pub record Two (A : Type 0) : Type 0 where
  pub first : A
  pub second : A

abbrev pub at_epoch : {A : Type 0} → Two A → ℕ → A
at_epoch t epoch = if epoch == 0 then t.first else t.second

abbrev pub set_epoch : {A : Type 0} → Two A → ℕ → A → Two A
set_epoch t epoch a = if epoch == 0 then record t { first = a } else record t { second = a }

abbrev pub both : {A : Type 0} → A → Two A
both a = record { first = a; second = a }

-- `struct lens_dist_epoch`
pub record DistEpoch (D : Type 0) : Type 0 where
  pub locked : Bool
  pub n : ℕ
  pub max : D
  pub samples : List D

-- `struct lens_histo_epoch`
pub record HistoEpoch : Type 0 where
  pub below : ℕ
  pub above : ℕ
  pub counts : List ℕ

-- `struct lens_histo`
pub record LensHisto : Type 0 where
  pub epochs : Two HistoEpoch
  pub buckets : List ℕ
  pub buckets_len : ℕ

-- `struct lens_quantile`
pub record LensQuantile (D : Type 0) : Type 0 where
  pub target_quantile : D
  pub original_estimate : D
  pub adjustment_value : D
  pub multiplier : ℕ
  pub count : Two ℕ

-- What follows the header of a lens in memory. Its constructor is the type of the lens. A counter and
-- a multiplier are 64 bit patterns, a gauge is the pattern of a double.
pub data Sub (D : Type 0) : Type 0 where
  counter : Two ℕ → Sub D
  gauge : ℕ → Sub D
  dist : Two (DistEpoch D) → Sub D
  histo : LensHisto → Sub D
  quantile : LensQuantile D → Sub D

-- `struct optics_lens`; the owner is the `optics` at hand.
pub record Lens (D : Type 0) : Type 0 where
  pub name : List ℕ
  pub name_len : ℕ
  pub next : ℕ
  pub prev : ℕ
  pub sub : Sub D

module _ {D : Type 0} where
  unfoldable pub sub_type : Sub D → LensType
  sub_type (counter _) = counter_type
  sub_type (gauge _) = gauge_type
  sub_type (dist _) = dist_type
  sub_type (histo _) = histo_type
  sub_type (quantile _) = quantile_type

  unfoldable pub lens_type : Lens D → LensType
  unfolding sub_type
  lens_type lens = sub_type lens.sub

  unfoldable pub lens_name : Lens D → List ℕ
  lens_name lens = lens.name

  -- `lens_sub_ptr` with each type: `none` for NULL.
  unfoldable pub counter_ptr : Sub D → Option (Two ℕ)
  counter_ptr (counter c) = some c
  counter_ptr _ = none

  unfoldable pub gauge_ptr : Sub D → Option ℕ
  gauge_ptr (gauge g) = some g
  gauge_ptr _ = none

  unfoldable pub dist_ptr : Sub D → Option (Two (DistEpoch D))
  dist_ptr (dist d) = some d
  dist_ptr _ = none

  unfoldable pub histo_ptr : Sub D → Option LensHisto
  histo_ptr (histo h) = some h
  histo_ptr _ = none

  unfoldable pub quantile_ptr : Sub D → Option (LensQuantile D)
  quantile_ptr (quantile q) = some q
  quantile_ptr _ = none

  -- `lens_alloc`, with what `calloc` and the caller put behind the header. `has_memory` is whether
  -- `calloc` finds memory; `none` is NULL.
  unfoldable pub lens_alloc : Bool → Sub D → List ℕ → Option (Lens D)
  lens_alloc has_memory sub name =
      let name_len = min (length name) optics_name_max_len + 1 in
      if name_len == optics_name_max_len
      then none
      else if has_memory
      then some (record {
        name = take (name_len - 1) name;
        name_len = name_len;
        next = 0;
        prev = 0;
        sub = sub;
      })
      else none
