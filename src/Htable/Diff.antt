-- ===== src/Htable/Diff.antt =====
-- `htable_diff` of src/utils/htable.c, for three different tables.
use optics_light.Htable.{Table, Htable, htable_get, htable_put}
use optics_light.Optics.Lenses.{◌>>=◌}
use optics_light.Prelude.{ℕ, Option, none, some, [], ◌∷◌, true, false}

-- The loop over the buckets of the first table: a get may grow the second, a put the result.
unfoldable pub diff_from : ℕ → Table → Htable → Htable → Option (Htable × Htable)
diff_from fuel [] b result = some (b, result)
diff_from fuel (bucket ∷ t) b result = elim bucket.key [
  | none ↦ diff_from fuel t b result
  | some key ↦ do
    got ← htable_get fuel b key
    elim got.0.ok [
      | true ↦ diff_from fuel t got.1 result
      | false ↦ do added ← htable_put fuel result key bucket.value; diff_from fuel t got.1 added.1
    ]
]

unfoldable pub htable_diff : ℕ → Htable → Htable → Htable → Option (Htable × Htable)
htable_diff fuel a b result = diff_from fuel a.table b result
