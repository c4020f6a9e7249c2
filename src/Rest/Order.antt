-- ===== src/Rest/Order.antt =====
-- The order of the REST table: `metrics_cmp` is an order, and that of the keys.
use optics_light.Key.{optics_name_max_len}
use optics_light.Qsort.{opposite, not_after, IsOrderOn}
use optics_light.Rest.{Metric, strncmp, metrics_cmp}
use optics_light.Prelude.{
  ℕ, zero, suc, ◌≡◌, refl, List, [], ◌∷◌, Bool, true, false, ltb, ◌==◌, ◌&&◌, ◌||◌, take, arith,
}

-- The order of a dictionary: a text comes before those that it begins, and the first bytes that differ
-- decide.
unfoldable pub key_leb : List ℕ → List ℕ → Bool
key_leb [] b = true
key_leb (x ∷ xs) [] = false
key_leb (x ∷ xs) (y ∷ ys) = ltb x y || (x == y && key_leb xs ys)

strncmp-flip : (a b : List ℕ) (n : ℕ) → strncmp b a n ≡ opposite (strncmp a b n)
unfolding strncmp opposite
strncmp-flip a b zero = refl
strncmp-flip [] [] (suc n) = refl
strncmp-flip [] (y ∷ ys) (suc n) = refl
strncmp-flip (x ∷ xs) [] (suc n) = refl
strncmp-flip (x ∷ xs) (y ∷ ys) (suc n) = ground (arith, strncmp-flip xs ys n)

-- On the first `n` bytes `strncmp` decides the order of a dictionary.
strncmp-key_leb : (a b : List ℕ) (n : ℕ) → not_after (strncmp a b n) ≡ key_leb (take n a) (take n b)
unfolding strncmp not_after key_leb
strncmp-key_leb a b zero = refl
strncmp-key_leb [] [] (suc n) = refl
strncmp-key_leb [] (y ∷ ys) (suc n) = refl
strncmp-key_leb (x ∷ xs) [] (suc n) = refl
strncmp-key_leb (x ∷ xs) (y ∷ ys) (suc n) = ground (arith, strncmp-key_leb xs ys n)

key_leb_trans : (a b c : List ℕ) → key_leb a b ≡ true → key_leb b c ≡ true → key_leb a c ≡ true
unfolding key_leb
key_leb_trans [] b c h k = refl
key_leb_trans (x ∷ xs) [] c h k = absurd (ground (arith, h))
key_leb_trans (x ∷ xs) (y ∷ ys) [] h k = absurd (ground (arith, k))
key_leb_trans (x ∷ xs) (y ∷ ys) (z ∷ zs) h k = ground (arith, key_leb_trans xs ys zs)

module _ {D : Type 0} where
  -- The keys, up to 256 bytes, are in the order of a dictionary.
  unfoldable pub KeysInOrder : Metric D → Metric D → Type 0
  KeysInOrder a b = key_leb (take 256 a.key) (take 256 b.key) ≡ true

  pub metrics_cmp-KeysInOrder :
      (a b : Metric D) → not_after (metrics_cmp a b) ≡ true → KeysInOrder a b
  unfolding metrics_cmp KeysInOrder
  metrics_cmp-KeysInOrder a b h = rw (← strncmp-key_leb a.key b.key 256) h

  pub metrics_cmp-IsOrderOn : (l : List (Metric D)) → IsOrderOn metrics_cmp l
  unfolding metrics_cmp
  metrics_cmp-IsOrderOn l = record {
    flip = λ a b m n. strncmp-flip a.key b.key optics_name_max_len;
    trans = λ a b c m n k h h'. rw (strncmp-key_leb a.key c.key optics_name_max_len) (
        key_leb_trans (take 256 a.key) (take 256 b.key) (take 256 c.key)
          (rw (← strncmp-key_leb a.key b.key 256) h) (rw (← strncmp-key_leb b.key c.key 256) h'));
  }
