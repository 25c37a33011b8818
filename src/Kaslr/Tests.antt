-- ===== src/Kaslr/Tests.antt =====
-- The seed overlay at a small blob (deps/tatu/src/kaslr.rs).
use arma.Base.{◌≡◌, ◌≢◌, ◌⊎◌, ◌≤◌, refl, true, false, some, ◌++◌, length}
use arma.Base.Text.{Bytes, codes}
use arma.Base.Slice.{splice}
use arma.Kaslr.{seed_sentinel, be, patch_overlay_seed, patch_overlay_seed_lem}

patched :
    patch_overlay_seed (codes "abKASLRSEDc") 0x0102
    ≡ some (codes "ab" ++ (be 8 0x0102 ++ codes "c"), true)
unfolding patch_overlay_seed splice
patched = refl

patch_overlay_seed_lem_example :
    (((pre post : Bytes) → codes "xKASLRSED" ≢ pre ++ (seed_sentinel ++ post))
      × (patch_overlay_seed (codes "xKASLRSED") 7 ≡ some (codes "xKASLRSED", false)))
    ⊎ ((pre : Bytes) × (post : Bytes) × (codes "xKASLRSED" ≡ pre ++ (seed_sentinel ++ post))
        × ((pre' post' : Bytes)
            → codes "xKASLRSED" ≡ pre' ++ (seed_sentinel ++ post')
            → length pre ≤ length pre')
        × (patch_overlay_seed (codes "xKASLRSED") 7 ≡ some (pre ++ (be 8 7 ++ post), true)))
patch_overlay_seed_lem_example = patch_overlay_seed_lem (codes "xKASLRSED") 7
