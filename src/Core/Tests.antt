-- ===== src/Core/Tests.antt =====
-- The functions on texts at a few texts (src/core/util.cpp).
use wx_extension.Prelude.{◌≡◌, ◌++◌, [], ◌∷◌, refl, Text}
use wx_extension.Core.Text.{get_endoftext}

abbrev path : Text
path = b'a' ∷ b'/' ∷ b'b' ∷ b'/' ∷ b'c' ∷ []

-- the end of a text takes one char less than it may
end_of_text : get_endoftext (path ++ path) 7 ≡ b'.' ∷ b'.' ∷ b'.' ∷ b'b' ∷ b'/' ∷ b'c' ∷ []
unfolding get_endoftext
end_of_text = refl
