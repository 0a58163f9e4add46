-- ===== src/Pfs/Span.antt =====
-- How many clusters fuselage_read and fuselage_write go through (PFS/src/pfs.c): a computation with
-- `float`. A value of the code is a fraction of a cluster's size, a power of two, so that dividing by
-- it rounds nothing: the model keeps the numerators.
use fuselage_fat32_utn.Prelude.{
  ℕ, zero, suc, ◌+◌, ◌-◌, ◌*◌, ◌/◌, ◌%◌, ◌<◌, ◌≡◌, refl, arith, ltb, lt→ltb, ◌==◌, ◌&&◌, ◌||◌,
  if◌then◌else◌,
}

-- The distance of two neighbours of `n` among the numbers with 24 binary digits.
unfoldable pub spacing : (rounds : ℕ) → ℕ → ℕ
spacing zero n = 1
spacing (suc rounds) n = if ltb n 16777216 then 1 else 2 * spacing rounds (n / 2)

-- `(float) n` for `n` below 2 ^ 64: the nearest one, and of two the even one.
unfoldable pub single : ℕ → ℕ
unfolding spacing
single n =
    let gap = spacing 40 n in
    let below = n / gap in
    let rest = n % gap in
    if ltb gap (2 * rest) || ((2 * rest == gap) && (below % 2 == 1))
    then (below + 1) * gap
    else below * gap

-- `ceil(((float) offset + bytes) / bytes_perCluster - (float) offset / (float) bytes_perCluster)`
unfoldable pub cluster_span : (offset bytes bytes_per_cluster : ℕ) → ℕ
unfolding single
cluster_span offset bytes bytes_per_cluster =
    let from = single offset in
    let to = single (from + single bytes) in
    (single (to - from) + (bytes_per_cluster - 1)) / bytes_per_cluster

single-small : (n : ℕ) → n < 16777216 → single n ≡ n
unfolding single spacing
single-small n h = rw (lt→ltb n 16777216 h) (ground arith)

-- Below 16 MB nothing is rounded, and the clusters are those that hold as many bytes, wherever in a
-- cluster the first byte lies.
pub cluster_span-exact :
    (offset bytes bytes_per_cluster : ℕ)
    → offset + bytes < 16777216
    → cluster_span offset bytes bytes_per_cluster
      ≡ (bytes + (bytes_per_cluster - 1)) / bytes_per_cluster
unfolding cluster_span
cluster_span-exact offset bytes bpc h =
    rw (single-small offset (omega (arith, h)), single-small bytes (omega (arith, h)))
      (rw (single-small (offset + bytes) h) (
        let e : offset + bytes - offset ≡ bytes = omega arith in
        rw e (rw (single-small bytes (omega (arith, h))) refl)))
