-- ===== src/Curve/Tests.antt =====
-- Runs of the model of sdk/src/escrow/curve.ts.
use ppv.Base.{◌≡◌, refl, true, false, ◌∷◌, replicate}
use ppv.Curve.{
  prime, edwards_d, mod_pow_loop, mod_pow, inverse, is_square, mod_pred, little_endian,
  decompresses, is_on_curve,
}

-- The base point, whose `y` is 4/5.
base_point_on_curve : is_on_curve (88 ∷ replicate 31 102) ≡ true
unfolding is_on_curve prime edwards_d mod_pow_loop mod_pow inverse is_square mod_pred little_endian
    decompresses
base_point_on_curve = refl

-- No point has `y` 2.
two_off_curve : is_on_curve (2 ∷ replicate 31 0) ≡ false
unfolding is_on_curve prime edwards_d mod_pow_loop mod_pow inverse is_square mod_pred little_endian
    decompresses
two_off_curve = refl
