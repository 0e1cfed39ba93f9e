-- ===== src/Scion/Paths/Order.antt =====
-- The comparison of `SortPartsPaths` is a strict total order on the sorters, as `sort.Slice` needs.
use cilion.Base.{◌≡◌, refl, Bytes, [], ◌∷◌, true, false, arith}
use cilion.Scion.Paths.{str_lt, sorter_less}

str_lt_irrefl : (s : Bytes) → str_lt s s ≡ false
unfolding str_lt
str_lt_irrefl [] = refl
str_lt_irrefl (c ∷ s) = ground (arith, str_lt_irrefl s)

str_lt_trans : (s t u : Bytes) → str_lt s t ≡ true → str_lt t u ≡ true → str_lt s u ≡ true
unfolding str_lt
str_lt_trans [] [] u h k = ground arith
str_lt_trans [] (d ∷ t) [] h k = ground arith
str_lt_trans [] (d ∷ t) (e ∷ u) h k = refl
str_lt_trans (c ∷ s) [] u h k = ground arith
str_lt_trans (c ∷ s) (d ∷ t) [] h k = ground arith
str_lt_trans (c ∷ s) (d ∷ t) (e ∷ u) h k = ground (arith, str_lt_trans s t u)

str_lt_connected : (s t : Bytes) → str_lt s t ≡ false → str_lt t s ≡ false → s ≡ t
unfolding str_lt
str_lt_connected [] [] h k = refl
str_lt_connected [] (d ∷ t) h k = ground arith
str_lt_connected (c ∷ s) [] h k = ground arith
str_lt_connected (c ∷ s) (d ∷ t) h k = ground (arith, str_lt_connected s t)

pub sorter_less_irrefl : (s : Bytes) → sorter_less s s ≡ false
unfolding sorter_less
sorter_less_irrefl s = ground (arith, str_lt_irrefl s)

pub sorter_less_trans :
    (s t u : Bytes) → sorter_less s t ≡ true → sorter_less t u ≡ true → sorter_less s u ≡ true
unfolding sorter_less
sorter_less_trans s t u h k = ground (arith, str_lt_trans s t u)

pub sorter_less_connected :
    (s t : Bytes) → sorter_less s t ≡ false → sorter_less t s ≡ false → s ≡ t
unfolding sorter_less
sorter_less_connected s t h k = ground (arith, str_lt_connected s t)

-- "Not less" composes: the comparison is a strict weak order.
pub sorter_less_cotrans :
    (s t u : Bytes) → sorter_less s t ≡ false → sorter_less t u ≡ false → sorter_less s u ≡ false
sorter_less_cotrans s t u h k = ground (arith, sorter_less_connected s t h, sorter_less_trans t s u)
