-- ===== src/Tests/MsgReqTests.antt =====
-- Numbers of four digits.
use tirpc.MsgReq.{next_number, last_not_nine, bumped, bump_at}
use tirpc.Prelude.{◌≡◌, refl, [], ◌∷◌}

carries : next_number (48 ∷ 49 ∷ 57 ∷ 57 ∷ []) ≡ 48 ∷ 50 ∷ 48 ∷ 48 ∷ []
unfolding next_number last_not_nine bumped bump_at
carries = refl
