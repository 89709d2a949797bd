-- ===== src/Api/Builder/Tests.antt =====
-- Which byte strings are UTF-8.
use mmtk_ruby.Base.{◌≡◌, refl, true, false, [], ◌∷◌}
use mmtk_ruby.Api.Builder.{is_utf8}

-- `é` and `€`, a surrogate, and an encoding that is too long.
utf8_good : is_utf8 (195 ∷ 169 ∷ 226 ∷ 130 ∷ 172 ∷ []) ≡ true
unfolding is_utf8
utf8_good = refl

utf8_surrogate : is_utf8 (237 ∷ 160 ∷ 128 ∷ []) ≡ false
unfolding is_utf8
utf8_surrogate = refl

utf8_long : is_utf8 (192 ∷ 128 ∷ []) ≡ false
unfolding is_utf8
utf8_long = refl

utf8_four : is_utf8 (240 ∷ 159 ∷ 146 ∷ 142 ∷ 65 ∷ []) ≡ true
unfolding is_utf8
utf8_four = refl
